-- ===== src/WriteAheadLog/Replay.antt =====
-- WriteAheadLog::replay of store/write_ahead_log.cpp.
use multithreaded_exchange_s.WalRecord.Torn.{
  decode-torn, decode-encode_record, length-record_bytes, encode_record-bytes,
}
use multithreaded_exchange_s.WalRecord.{
  encode_payload, ReadResult, decode_record, WalRecord, encode_record,
}
use multithreaded_exchange_s.WalRecord.RoundTrip.{stored_command, FitsCommand}
use multithreaded_exchange_s.WriteAheadLog.{stopped_at, replay, replay_loop}
use multithreaded_exchange_s.Command.{Command}
use multithreaded_exchange_s.Prelude.{
  ℕ, zero, suc, ◌+◌, ◌^◌, ◌≤◌, ◌<◌, ◌≡◌, refl, sym, ap, ap₂, ◌∙◌, Bool, true, false, some, List, [],
  ◌∷◌, ◌++◌, append-nil, append_assoc, arith, ltb, length, drop, length-append, drop-append, All,
}

-- Records with rising sequence numbers, as the log writes them.
unfoldable pub encode_all : ℕ → List Command → List ℕ
encode_all sequence [] = []
encode_all sequence (c ∷ cs) = encode_record sequence c ++ encode_all (suc sequence) cs

unfoldable pub stored_all : ℕ → List Command → List WalRecord
stored_all sequence [] = []
stored_all sequence (c ∷ cs) =
    record { sequence = sequence; command = stored_command c } ∷ stored_all (suc sequence) cs

-- What a killed writer may leave: nothing, or a proper beginning of a record.
pub data TornTail : List ℕ → Bool → Type 0 where
  nothing : TornTail [] false
  torn :
      (b : ℕ) (bs more : List ℕ) (sequence : ℕ) (c : Command)
      → 0 < length more
      → (b ∷ bs) ++ more ≡ encode_record sequence c
      → TornTail (b ∷ bs) true

loop_ends :
    (fuel : ℕ) (front tail : List ℕ) (records : List WalRecord) {truncated : Bool}
    → TornTail tail truncated
    → replay_loop (suc fuel) (front ++ tail) (length front) records
      ≡ some (stopped_at (length front) truncated records)
unfolding replay_loop
loop_ends fuel front [] records TornTail.nothing =
    let over : ltb (length front) (length (front ++ [])) ≡ false =
      ground (arith, length-append front []) in
    rw (over, replay_loop) refl
loop_ends fuel front tail records (TornTail.torn b bs more s c h e) =
    let on : ltb (length front) (length (front ++ b ∷ bs)) ≡ true =
      ground (arith, length-append front (b ∷ bs)) in
    let read : decode_record (drop (length front) (front ++ b ∷ bs)) ≡ ReadResult.incomplete =
      ap decode_record (drop-append front (b ∷ bs)) ∙ decode-torn (b ∷ bs) more s c h e in
    rw (on, read, replay_loop) refl

encode_record_size : (sequence : ℕ) (c : Command) → 0 < length (encode_record sequence c)
encode_record_size sequence c = omega (
  arith,
  ap length (encode_record-bytes sequence c),
  length-record_bytes (encode_payload sequence c),
)

-- One whole record in the middle of the file.
loop_step :
    (fuel : ℕ) (front bytes rest : List ℕ) (records : List WalRecord) (r : WalRecord)
    → decode_record (bytes ++ rest) ≡ ReadResult.read_ok r (length bytes)
    → 0 < length bytes
    → replay_loop (suc fuel) (front ++ (bytes ++ rest)) (length front) records
      ≡ replay_loop fuel
          (front ++ (bytes ++ rest))
          (length front + length bytes)
          (records ++ r ∷ [])
unfolding replay_loop
loop_step fuel front bytes rest records r e h =
    let on : ltb (length front) (length (front ++ (bytes ++ rest))) ≡ true =
      ground (arith, length-append front (bytes ++ rest), length-append bytes rest) in
    let read : decode_record (drop (length front) (front ++ (bytes ++ rest)))
        ≡ ReadResult.read_ok r (length bytes) =
      ap decode_record (drop-append front (bytes ++ rest)) ∙ e in
    rw (on, read, replay_loop) refl

loop_reads :
    (fuel : ℕ) (cs : List Command) (sequence : ℕ) (front tail : List ℕ) (records : List WalRecord)
    {truncated : Bool}
    → TornTail tail truncated
    → All FitsCommand cs
    → sequence + length cs < 2 ^ 64
    → length cs < fuel
    → replay_loop fuel (front ++ (encode_all sequence cs ++ tail)) (length front) records
      ≡ some (
          stopped_at
            (length (front ++ encode_all sequence cs))
            truncated
            (records ++ stored_all sequence cs))
unfolding encode_all stored_all
loop_reads zero cs sequence front tail records t fits w h = absurd (omega (arith, h))
loop_reads (suc fuel) [] sequence front tail records {truncated} t fits w h =
    loop_ends fuel front tail records t
    ∙ ap₂ (λ f r. some (stopped_at (length f) truncated r)) (sym (append-nil front))
        (sym (append-nil records))
loop_reads (suc fuel) (c ∷ cs) sequence front tail records {truncated} t fits w h =
    let bytes = encode_record sequence c in
    let rest = encode_all (suc sequence) cs ++ tail in
    let whole : front ++ ((bytes ++ encode_all (suc sequence) cs) ++ tail)
        ≡ front ++ (bytes ++ rest) =
      ap (λ l. front ++ l) (append_assoc bytes (encode_all (suc sequence) cs) tail) in
    let again : front ++ (bytes ++ rest) ≡ (front ++ bytes) ++ rest =
      sym (append_assoc front bytes rest) in
    let r : WalRecord = record { sequence = sequence; command = stored_command c } in
    ap (λ l. replay_loop (suc fuel) l (length front) records) whole
    ∙ (loop_step fuel front bytes rest records r
          (decode-encode_record sequence c rest (omega (arith, w)) fits.0)
          (encode_record_size sequence c)
        ∙ (ap₂ (λ l n. replay_loop fuel l n (records ++ r ∷ [])) again
              (sym (length-append front bytes))
            ∙ (loop_reads fuel cs (suc sequence) (front ++ bytes) tail (records ++ r ∷ []) t fits.1
                  (omega (arith, w)) (omega (arith, h))
                ∙ ap₂ (λ f q. some (stopped_at (length f) truncated q))
                    (append_assoc front bytes (encode_all (suc sequence) cs))
                    (append_assoc records (r ∷ []) (stored_all (suc sequence) cs)))))

length-encode_all : (sequence : ℕ) (cs : List Command) → length cs ≤ length (encode_all sequence cs)
unfolding encode_all
length-encode_all sequence [] = omega arith
length-encode_all sequence (c ∷ cs) = omega (
  arith,
  length-append (encode_record sequence c) (encode_all (suc sequence) cs),
  encode_record_size sequence c,
  length-encode_all (suc sequence) cs,
)

-- A file of records with rising sequence numbers, whose fields fit their widths, and with a torn record
-- at its end or none, replays to exactly those records, in order: every byte of them is valid, and the
-- log is truncated exactly where a torn record follows.
pub replay-encode_all :
    (sequence : ℕ) (cs : List Command) (tail : List ℕ) (truncated : Bool)
    → All FitsCommand cs
    → sequence + length cs < 2 ^ 64
    → TornTail tail truncated
    → replay (encode_all sequence cs ++ tail)
      ≡ some (record {
        records = stored_all sequence cs;
        valid_bytes = length (encode_all sequence cs);
        truncated = truncated;
      })
unfolding replay
replay-encode_all sequence cs tail truncated fits w t =
    loop_reads (suc (length (encode_all sequence cs ++ tail))) cs sequence [] tail [] t fits w
      (omega (arith, length-append (encode_all sequence cs) tail, length-encode_all sequence cs))
