-- ===== src/Wire/RoundTrip.antt =====
-- core/wire.hpp: the Writer's numbers against the Reader's.
use multithreaded_exchange_s.Prelude.Int.{neg_part, negsuc, pos, pos_part, ℤ}
use multithreaded_exchange_s.Prelude.{
  ℕ, zero, suc, ◌+◌, ◌%◌, ◌^◌, ◌≤◌, ◌<◌, ◌≡◌, refl, ap, false, List, ◌∷◌, ◌++◌, arith, ltb, length,
}
use multithreaded_exchange_s.Wire.{
  ok, emit, gather, get_u8, get_u32, get_u64, get_i64, to_unsigned, to_signed,
}

length-emit : (v i n : ℕ) → length (emit v i n) ≡ n
unfolding emit
length-emit v i zero = refl
length-emit v i (suc n) = omega (arith, length-emit v (i + 1) n)

pub gather-emit4 : (v : ℕ) (rest : List ℕ) → v < 2 ^ 32 → gather 0 4 (emit v 0 4 ++ rest) ≡ v
unfolding emit gather
gather-emit4 v rest h = omega arith

pub gather-emit8 : (v : ℕ) (rest : List ℕ) → v < 2 ^ 64 → gather 0 8 (emit v 0 8 ++ rest) ≡ v
unfolding emit gather
gather-emit8 v rest h = omega arith

pub get-put_u8 : (v : ℕ) (rest : List ℕ) → v < 256 → get_u8 (v % 256 ∷ rest) ≡ ok (v, rest)
unfolding get_u8 gather
get-put_u8 v rest h =
    let enough : ltb (suc (length rest)) 1 ≡ false = ground arith in
    rw enough (ap (λ n. ok (n, rest)) (omega arith))

pub get-put_u64 : (v : ℕ) (rest : List ℕ) → v < 2 ^ 64 → get_u64 (emit v 0 8 ++ rest) ≡ ok (v, rest)
unfolding get_u64 emit
get-put_u64 v rest h =
    let enough : ltb (length (emit v 0 8 ++ rest)) 8 ≡ false = ground arith in
    rw (enough, gather-emit8 v rest h)

pub get-put_u32 : (v : ℕ) (rest : List ℕ) → v < 2 ^ 32 → get_u32 (emit v 0 4 ++ rest) ≡ ok (v, rest)
unfolding get_u32 emit
get-put_u32 v rest h =
    let enough : ltb (length (emit v 0 4 ++ rest)) 4 ≡ false = ground arith in
    rw (enough, gather-emit4 v rest h)

-- A price that fits a std::int64_t.
abbrev pub FitsI64 : ℤ → Type 0
FitsI64 p = (pos_part p < 2 ^ 63) × (neg_part p ≤ 2 ^ 63)

signed-unsigned : (p : ℤ) → FitsI64 p → (to_signed (to_unsigned p) ≡ p) × (to_unsigned p < 2 ^ 64)
unfolding to_signed to_unsigned
signed-unsigned (pos n) h = ground arith
signed-unsigned (negsuc n) h = ground arith

-- A price that fits 64 bits, written as the two's complement in eight bytes, is read back from the
-- front of any input, and the rest of the input is left unread.
pub get-put_i64 :
    (p : ℤ) (rest : List ℕ) → FitsI64 p → get_i64 (emit (to_unsigned p) 0 8 ++ rest) ≡ ok (p, rest)
unfolding get_i64
get-put_i64 p rest h =
    let back = signed-unsigned p h in rw (get-put_u64 (to_unsigned p) rest back.1, back.0)
