-- ===== src/WalRecord/Prefix.antt =====
-- store/wal_record.cpp: decodeRecord on any buffer.
use multithreaded_exchange_s.Prelude.{
  length-drop, take-prefix, drop-prefix, ℕ, ◌+◌, ◌≤◌, ◌<◌, ◌≡◌, refl, sym, ap, ◌∙◌, inl, inr, not,
  ◌||◌, Option, none, some, List, ◌++◌, arith, ltb, ◌==◌, if◌then◌else◌, ==_iff, Bool-cases, length,
  take, drop,
}
use multithreaded_exchange_s.WalRecord.Torn.{decode_tests}
use multithreaded_exchange_s.Assembler.Stream.{gather-append}
use multithreaded_exchange_s.WalRecord.{decode_record, read_payload, ReadResult, read_as, WalRecord}
use multithreaded_exchange_s.Wire.{err, ok, gather, Result}
use multithreaded_exchange_s.Crc32.{crc32}

-- What the tests found of a buffer that decodes to a record.
pub record Decodes (bytes : List ℕ) (r : WalRecord) (n : ℕ) : Type 0 where
  pub size : ℕ
  pub consumed : n ≡ 8 + size
  pub long : 8 + size ≤ length bytes
  pub some_size : 0 < size
  pub small : size ≤ 4096
  pub header : gather 0 4 bytes ≡ size
  pub sum : crc32 (take size (drop 8 bytes)) ≡ gather 0 4 (drop 4 bytes)
  pub payload : read_payload (take size (drop 8 bytes)) ≡ ok (some r)

read_as_ok :
    (m n : ℕ) (o : Result (Option WalRecord)) (r : WalRecord)
    → read_as m o ≡ ReadResult.read_ok r n
    → (o ≡ ok (some r)) × (n ≡ m)
read_as_ok m n (ok (some x)) r h = (cc, cc)
read_as_ok m n (ok none) r h = absurd (cc)
read_as_ok m n (err e) r h = absurd (cc)

tested :
    (bytes : List ℕ) (r : WalRecord) (n size : ℕ) (expected : ℕ) (payload : List ℕ)
    → gather 0 4 bytes ≡ size
    → take size (drop 8 bytes) ≡ payload
    → gather 0 4 (drop 4 bytes) ≡ expected
    → (if ltb (length bytes) 8
        then ReadResult.incomplete
        else if size == 0 || ltb 4096 size
        then ReadResult.corrupt
        else if ltb (length bytes) (8 + size)
        then ReadResult.incomplete
        else if not (crc32 payload == expected)
        then ReadResult.corrupt
        else read_as (8 + size) (read_payload payload))
      ≡ ReadResult.read_ok r n
    → Decodes bytes r n
tested bytes r n size expected payload g p x h = elim (Bool-cases (ltb (length bytes) 8)) [
  | inl a ↦ absurd (cc)
  | inr a ↦ elim (Bool-cases (size == 0 || ltb 4096 size)) [
    | inl b ↦ absurd (cc)
    | inr b ↦ elim (Bool-cases (ltb (length bytes) (8 + size))) [
      | inl c ↦ absurd (cc)
      | inr c ↦ elim (Bool-cases (crc32 payload == expected)) [
        | inr d ↦ absurd (cc)
        | inl d ↦
            let found = read_as_ok (8 + size) n (read_payload payload) r (cc) in
            record {
              size = size;
              consumed = found.1;
              long = ground arith;
              some_size = ground arith;
              small = ground arith;
              header = g;
              sum = ap crc32 p ∙ ((==_iff (crc32 payload) expected).0 d ∙ sym x);
              payload = ap read_payload p ∙ found.0;
            }
      ]
    ]
  ]
]

pub decode_record-Decodes :
    (bytes : List ℕ) (r : WalRecord) (n : ℕ)
    → decode_record bytes ≡ ReadResult.read_ok r n
    → Decodes bytes r n
unfolding decode_record
decode_record-Decodes bytes r n h =
    tested bytes r n (gather 0 4 bytes) (gather 0 4 (drop 4 bytes))
      (take (gather 0 4 bytes) (drop 8 bytes)) refl refl refl h

-- What a buffer decodes to does not depend on what follows the bytes that the record takes.
pub decode_record_prefix :
    (xs ys : List ℕ) (r : WalRecord) (n : ℕ)
    → decode_record (xs ++ ys) ≡ ReadResult.read_ok r n
    → n ≤ length xs
    → decode_record xs ≡ ReadResult.read_ok r n
decode_record_prefix xs ys r n h k =
    let d = decode_record-Decodes (xs ++ ys) r n h in
    let long : 8 + d.size ≤ length xs = omega (arith, k, d.consumed) in
    let body : take d.size (drop 8 (xs ++ ys)) ≡ take d.size (drop 8 xs) =
      ap (take d.size) (drop-prefix 8 xs ys (omega (arith, long)))
      ∙ take-prefix d.size (drop 8 xs) ys (omega (arith, long, length-drop 8 xs)) in
    let sum : gather 0 4 (drop 4 xs) ≡ gather 0 4 (drop 4 (xs ++ ys)) =
      gather-append (drop 4 xs) ys (omega (arith, long, length-drop 4 xs))
      ∙ ap (gather 0 4) (sym (drop-prefix 4 xs ys (omega (arith, long)))) in
    decode_tests xs (take d.size (drop 8 xs)) d.size (gather 0 4 (drop 4 xs))
      (gather-append xs ys (omega (arith, long)) ∙ d.header) refl refl long d.some_size d.small
      (ap crc32 (sym body) ∙ (d.sum ∙ sym sum))
    ∙ (ap (read_as (8 + d.size)) (ap read_payload (sym body) ∙ d.payload)
        ∙ ap (ReadResult.read_ok r) (sym d.consumed))
