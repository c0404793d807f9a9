-- ===== src/Crc32.antt =====
-- store/crc32.hpp: the checksum of the write-ahead log. A value is an std::uint32_t, whose shifts and
-- exclusive ors are written on natural numbers.
use Prim.Native.Nat.{bit_xor}
use multithreaded_exchange_s.Prelude.{
  ℕ, zero, suc, ◌/◌, ◌%◌, ◌^◌, ◌<◌, ◌≡◌, refl, List, [], ◌∷◌, arith, ◌==◌, if◌then◌else◌,
}

-- The eight rounds of makeCrcTable on one entry.
unfoldable pub crc_rounds : ℕ → ℕ → ℕ
crc_rounds zero value = value
crc_rounds (suc n) value =
    crc_rounds n (if value % 2 == 1 then bit_xor (value / 2) 0xEDB88320 else value / 2)

unfoldable pub crc_table : ℕ → ℕ
unfolding crc_rounds
crc_table i = crc_rounds 8 i

-- The loop over the bytes.
unfoldable pub crc_loop : ℕ → List ℕ → ℕ
unfolding crc_table
crc_loop crc [] = crc
crc_loop crc (b ∷ bs) = crc_loop (bit_xor (crc / 256) (crc_table (bit_xor crc b % 256))) bs

unfoldable pub crc32 : List ℕ → ℕ
unfolding crc_loop
crc32 bytes = bit_xor (crc_loop 0xFFFFFFFF bytes) 0xFFFFFFFF % 2 ^ 32

-- The check value of CRC-32: the checksum of "123456789".
crc32_check : crc32 (49 ∷ 50 ∷ 51 ∷ 52 ∷ 53 ∷ 54 ∷ 55 ∷ 56 ∷ 57 ∷ []) ≡ 0xCBF43926
unfolding crc32
crc32_check = refl

pub crc32-lt : (bytes : List ℕ) → crc32 bytes < 2 ^ 32
unfolding crc32
crc32-lt bytes = omega arith
