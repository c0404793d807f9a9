-- ===== src/Wire.antt =====
-- core/wire.hpp: little-endian numbers in a byte buffer. A byte is a number below 256. A Writer
-- appends to its buffer; a Reader is the list of the bytes that it has not read.
pub mod RoundTrip
use multithreaded_exchange_s.Prelude.{
  ℕ, zero, suc, ◌+◌, ◌-◌, ◌*◌, ◌/◌, ◌%◌, ◌^◌, ◌≤◌, ◌<◌, min, ◌≡◌, refl, sym, ap, ap₂, subst, ◌∙◌,
  ◌≢◌, ◌↔◌, ◌⊎◌, inl, inr, Bool, true, false, not, ◌&&◌, ◌||◌, Option, none, some, List, [], ◌∷◌,
  ◌++◌, map, append-nil, append_assoc, arith, ltb, leb, ◌==◌, if◌then◌else◌, ltb→lt, lt→ltb, ==_iff,
  Bool-cases, Option-cases, length, take, drop, length-append, take-append, drop-append, All,
  All-append, All-of, All-map,
}
use multithreaded_exchange_s.Prelude.Int.{ℤ, pos, negsuc}

-- The ProtocolErrors of the readers and decoders.
pub data ProtocolError : Type 0 where
  truncated trailing bad_side bad_kind bad_reason wrong_direction : ProtocolError
  unknown_type too_long too_short bad_version : ProtocolError

pub data Result {ℓ} (A : Type ℓ) : Type ℓ where
  ok : A → Result A
  err : ProtocolError → Result A

infixl 5 ◌>>=◌
abbrev pub ◌>>=◌ {ℓ κ} : {A : Type ℓ} {B : Type κ} → Result A → (A → Result B) → Result B
ok a >>= f = f a
err e >>= f = err e

-- Writer::emit: byte i of the value, for each i from `i` on.
unfoldable pub emit : ℕ → ℕ → ℕ → List ℕ
emit value i zero = []
emit value i (suc n) = ((value / 2 ^ (8 * i)) % 256) ∷ emit value (i + 1) n

unfoldable pub put_u8 : ℕ → List ℕ → List ℕ
put_u8 value out = out ++ (value % 256) ∷ []

unfoldable pub put_u16 : ℕ → List ℕ → List ℕ
put_u16 value out = out ++ emit value 0 2

unfoldable pub put_u32 : ℕ → List ℕ → List ℕ
put_u32 value out = out ++ emit value 0 4

unfoldable pub put_u64 : ℕ → List ℕ → List ℕ
put_u64 value out = out ++ emit value 0 8

-- The two's complement casts between std::int64_t and std::uint64_t.
unfoldable pub to_unsigned : ℤ → ℕ
to_unsigned (pos n) = n % 2 ^ 64
to_unsigned (negsuc n) = 2 ^ 64 - 1 - n % 2 ^ 64

unfoldable pub to_signed : ℕ → ℤ
to_signed w = if ltb w (2 ^ 63) then pos w else negsuc (2 ^ 64 - 1 - w)

unfoldable pub put_i64 : ℤ → List ℕ → List ℕ
unfolding put_u64 to_unsigned
put_i64 value out = put_u64 (to_unsigned value) out

-- Reader::require, before the bytes are touched.
abbrev pub require : ℕ → List ℕ → Result (Unit {0})
require n input = if ltb (length input) n then err truncated else ok tt

-- The loop of Reader::consume from byte i on; the bits are disjoint, so that `|=` adds.
unfoldable pub gather : ℕ → ℕ → List ℕ → ℕ
gather i zero input = 0
gather i (suc n) [] = 0
gather i (suc n) (b ∷ bs) = b * 2 ^ (8 * i) + gather (i + 1) n bs

unfoldable pub consume : ℕ → List ℕ → Result (ℕ × List ℕ)
consume n input = require n input >>= λ _. ok (gather 0 n input, drop n input)

unfoldable pub get_u8 : List ℕ → Result (ℕ × List ℕ)
unfolding consume
get_u8 input = consume 1 input

unfoldable pub get_u16 : List ℕ → Result (ℕ × List ℕ)
unfolding consume
get_u16 input = consume 2 input

unfoldable pub get_u32 : List ℕ → Result (ℕ × List ℕ)
unfolding consume
get_u32 input = consume 4 input

unfoldable pub get_u64 : List ℕ → Result (ℕ × List ℕ)
unfolding consume
get_u64 input = consume 8 input

unfoldable pub get_i64 : List ℕ → Result (ℤ × List ℕ)
unfolding get_u64 to_signed
get_i64 input = get_u64 input >>= λ r. ok (to_signed r.0, r.1)

unfoldable pub require_fully_consumed : List ℕ → Result (Unit {0})
require_fully_consumed [] = ok tt
require_fully_consumed (b ∷ bs) = err trailing
