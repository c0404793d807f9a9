-- ===== src/WalRecord/Torn.antt =====
-- store/wal_record.cpp: decodeRecord on a buffer that begins with a record, whole or torn.
use multithreaded_exchange_s.WalRecord.RoundTrip.{
  read_payload-encode, payload_size, stored_command, FitsCommand,
}
use multithreaded_exchange_s.WalRecord.{
  read_payload, ReadResult, encode_payload, read_as, decode_record, encode_record,
}
use multithreaded_exchange_s.Assembler.Stream.{gather-append}
use multithreaded_exchange_s.Crc32.{crc32-lt, crc32}
use multithreaded_exchange_s.Wire.{put_u32, gather, emit}
use multithreaded_exchange_s.Wire.RoundTrip.{gather-emit4}
use multithreaded_exchange_s.Command.{Command}
use multithreaded_exchange_s.Prelude.{
  ℕ, ◌+◌, ◌^◌, ◌≤◌, ◌<◌, ◌≡◌, refl, sym, ap, ◌∙◌, inl, inr, true, false, ◌||◌, List, [], ◌++◌,
  append-nil, arith, ltb, ◌==◌, ==_iff, Bool-cases, length, take, drop, length-append, take-append,
}

-- A record as encodeRecord makes it around a payload.
unfoldable pub record_bytes : List ℕ → List ℕ
unfolding put_u32
record_bytes payload = put_u32 (crc32 payload) (put_u32 (length payload) []) ++ payload

pub encode_record-bytes :
    (sequence : ℕ) (c : Command)
    → encode_record sequence c ≡ record_bytes (encode_payload sequence c)
unfolding encode_record record_bytes
encode_record-bytes sequence c = refl

pub length-record_bytes : (payload : List ℕ) → length (record_bytes payload) ≡ 8 + length payload
unfolding record_bytes emit
length-record_bytes payload = omega arith

size_of :
    (payload rest : List ℕ)
    → length payload < 2 ^ 32
    → gather 0 4 (record_bytes payload ++ rest) ≡ length payload
unfolding record_bytes emit
size_of payload rest w =
    gather-emit4 (length payload) (emit (crc32 payload) 0 4 ++ (payload ++ rest)) w

sum_of :
    (payload rest : List ℕ) → gather 0 4 (drop 4 (record_bytes payload ++ rest)) ≡ crc32 payload
unfolding record_bytes emit
sum_of payload rest = gather-emit4 (crc32 payload) (payload ++ rest) (crc32-lt payload)

body_of : (payload rest : List ℕ) → drop 8 (record_bytes payload ++ rest) ≡ payload ++ rest
unfolding record_bytes emit
body_of payload rest = refl

-- The tests of decodeRecord, once it is known what the header says.
pub decode_tests :
    (bytes payload : List ℕ) (size expected : ℕ)
    → gather 0 4 bytes ≡ size
    → gather 0 4 (drop 4 bytes) ≡ expected
    → take size (drop 8 bytes) ≡ payload
    → 8 + size ≤ length bytes
    → 0 < size
    → size ≤ 4096
    → crc32 payload ≡ expected
    → decode_record bytes ≡ read_as (8 + size) (read_payload payload)
unfolding decode_record
decode_tests bytes payload size expected g x p long some_size small sum =
    let whole : ltb (length bytes) 8 ≡ false = ground arith in
    let plausible : (size == 0 || ltb 4096 size) ≡ false = ground arith in
    let complete : ltb (length bytes) (8 + size) ≡ false = ground arith in
    let agrees : (crc32 payload == expected) ≡ true = (==_iff _ _).1 sum in
    rw (whole, g, x, p) (rw (plausible, complete, agrees) refl)

pub decode_whole :
    (payload rest : List ℕ)
    → 0 < length payload
    → length payload ≤ 4096
    → decode_record (record_bytes payload ++ rest)
      ≡ read_as (8 + length payload) (read_payload payload)
decode_whole payload rest some_size small =
    decode_tests (record_bytes payload ++ rest) payload (length payload) (crc32 payload)
      (size_of payload rest (omega (arith, small))) (sum_of payload rest)
      (ap (take (length payload)) (body_of payload rest) ∙ take-append payload rest)
      (omega (arith, length-append (record_bytes payload) rest, length-record_bytes payload))
      some_size small refl

-- A record decodes, from the front of any buffer, to its sequence number and to what the log keeps of
-- its command, and takes exactly its own bytes: for a sequence number and fields that fit their widths.
pub decode-encode_record :
    (sequence : ℕ) (c : Command) (rest : List ℕ)
    → sequence < 2 ^ 64
    → FitsCommand c
    → decode_record (encode_record sequence c ++ rest)
      ≡ ReadResult.read_ok
          (record { sequence = sequence; command = stored_command c })
          (length (encode_record sequence c))
decode-encode_record sequence c rest w h =
    let p = encode_payload sequence c in
    let s = payload_size sequence c in
    let bytes = encode_record-bytes sequence c in
    ap (λ b. decode_record (b ++ rest)) bytes
    ∙ (decode_whole p rest s.0 (omega (arith, s.1))
        ∙ (ap (read_as (8 + length p)) (read_payload-encode sequence c w h)
            ∙ ap (ReadResult.read_ok (record { sequence = sequence; command = stored_command c }))
                (sym (ap length bytes ∙ length-record_bytes p))))

torn_tests :
    (bytes more payload : List ℕ)
    → 0 < length more
    → length payload < 64
    → 0 < length payload
    → bytes ++ more ≡ record_bytes payload ++ []
    → length bytes + length more ≡ 8 + length payload
    → decode_record bytes ≡ ReadResult.incomplete
unfolding decode_record
torn_tests bytes more payload some_more small some_size e total =
    elim (Bool-cases (ltb (length bytes) 8)) [
      | inl s ↦ rw s refl
      | inr s ↦
          let four : 4 ≤ length bytes = ground arith in
          let size : gather 0 4 bytes ≡ length payload =
            gather-append bytes more four
            ∙ (ap (gather 0 4) e ∙ size_of payload [] (omega (arith, small))) in
          let plausible : (length payload == 0 || ltb 4096 (length payload)) ≡ false =
            ground arith in
          let short : ltb (length bytes) (8 + length payload) ≡ true = ground arith in
          rw (s, size) (rw (plausible, short) refl)
    ]

-- A proper beginning of a record, such as a writer leaves that is killed, is incomplete: it decodes to
-- no record, and is not taken for damage.
pub decode-torn :
    (bytes more : List ℕ) (sequence : ℕ) (c : Command)
    → 0 < length more
    → bytes ++ more ≡ encode_record sequence c
    → decode_record bytes ≡ ReadResult.incomplete
decode-torn bytes more sequence c some_more e =
    let p = encode_payload sequence c in
    let s = payload_size sequence c in
    let whole = e ∙ encode_record-bytes sequence c in
    torn_tests bytes more p some_more s.1 s.0 (whole ∙ sym (append-nil (record_bytes p)))
      (omega (arith, length-append bytes more, ap length whole, length-record_bytes p))
