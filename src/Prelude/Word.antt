-- ===== src/Prelude/Word.antt =====
-- Unsigned 64-bit arithmetic, with its wrap-around.
use Prim.Native.Nat.{ℕ, ◌+◌, ◌-◌, ◌%◌, ◌^◌, ◌≤◌, ◌<◌}
use mathlib.Core.Path.{◌≡◌}
use native.Mathlib.Omega.{arith}

abbrev pub u64_mod : ℕ
u64_mod = 2 ^ 64

unfoldable pub add64 : ℕ → ℕ → ℕ
add64 a b = (a + b) % u64_mod

unfoldable pub sub64 : ℕ → ℕ → ℕ
sub64 a b = (a + u64_mod - b) % u64_mod

unfoldable pub add64_exact : (a b : ℕ) → a + b < u64_mod → add64 a b ≡ a + b
unfolding add64
add64_exact a b h = omega arith

unfoldable pub sub64_exact : (a b : ℕ) → a < u64_mod → b ≤ a → sub64 a b ≡ a - b
unfolding sub64
sub64_exact a b h k = omega arith

unfoldable pub add64_mod : (a b s t : ℕ) → a ≡ s % u64_mod → t ≡ s + b → add64 a b ≡ t % u64_mod
unfolding add64
add64_mod a b s t h e = omega arith

unfoldable pub sub64_mod :
    (a b s t : ℕ) → a ≡ s % u64_mod → b < u64_mod → s ≡ t + b → sub64 a b ≡ t % u64_mod
unfolding sub64
sub64_mod a b s t h k e = omega arith

unfoldable pub add64-lt : (a b : ℕ) → add64 a b < u64_mod
unfolding add64
add64-lt a b = omega arith

-- Two subtractions that wrap are one of the sum.
unfoldable pub sub64_sub :
    (a b c : ℕ)
    → a < u64_mod
    → b + c ≤ u64_mod
    → (sub64 a b + u64_mod - c) % u64_mod ≡ (a + u64_mod - (b + c)) % u64_mod
unfolding sub64
sub64_sub a b c h k = omega arith

unfoldable pub sub64-lt : (a b : ℕ) → sub64 a b < u64_mod
unfolding sub64
sub64-lt a b = omega arith
