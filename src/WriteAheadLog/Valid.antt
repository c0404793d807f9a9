-- ===== src/WriteAheadLog/Valid.antt =====
-- WriteAheadLog::replay and truncateTo of store/write_ahead_log.cpp on a file of any bytes.
use multithreaded_exchange_s.Prelude.{
  length-take, length-drop, drop-split, ℕ, zero, suc, ◌+◌, ◌≤◌, ◌<◌, ◌≡◌, refl, sym, ap, ◌∙◌, ◌⊎◌,
  inl, inr, true, false, Option, some, List, [], ◌∷◌, ◌++◌, arith, ltb, ltb→lt, lt→ltb, Bool-cases,
  length, take, drop,
}
use multithreaded_exchange_s.WalRecord.Prefix.{decode_record_prefix, decode_record-Decodes}
use multithreaded_exchange_s.WriteAheadLog.{
  stopped_at, truncate_to, ReplayResult, replay, replay_loop,
}
use multithreaded_exchange_s.WalRecord.{decode_record, ReadResult, WalRecord}

-- What the loop of replay comes to.
record Loops (contents : List ℕ) (offset : ℕ) (records : List WalRecord) (o : Option ReplayResult)
    : Type 0 where
  result : ReplayResult
  returns : o ≡ some result
  from : offset ≤ result.valid_bytes
  within : result.valid_bytes ≤ length contents
  truncated : result.truncated ≡ ltb result.valid_bytes (length contents)
  again :
      (fuel : ℕ)
      → result.valid_bytes < offset + fuel
      → replay_loop fuel (take result.valid_bytes contents) offset records
        ≡ some (record result { truncated = false })

-- The loop at the end of what it may read.
loop_over :
    (fuel : ℕ) (contents : List ℕ) (offset : ℕ) (records : List WalRecord)
    → length contents ≤ offset
    → 0 < fuel
    → replay_loop fuel contents offset records ≡ some (stopped_at offset false records)
unfolding replay_loop
loop_over zero contents offset records h k = absurd (omega (arith, k))
loop_over (suc fuel) contents offset records h k =
    let over : ltb offset (length contents) ≡ false = ground arith in rw (over, replay_loop) refl

stops-Loops :
    (contents : List ℕ) (offset : ℕ) (records : List WalRecord) (o : Option ReplayResult)
    → offset < length contents
    → o ≡ some (stopped_at offset true records)
    → Loops contents offset records o
stops-Loops contents offset records o h e = record {
  result = stopped_at offset true records;
  returns = e;
  from = omega arith;
  within = omega (arith, h);
  truncated = sym (lt→ltb _ _ h);
  again = λ fuel k.
      loop_over fuel (take offset contents) offset records
        (omega (arith, length-take offset contents (omega (arith, h)))) (omega (arith, k));
}

ends-Loops :
    (contents : List ℕ) (offset : ℕ) (records : List WalRecord) (o : Option ReplayResult)
    → offset ≡ length contents
    → o ≡ some (stopped_at offset false records)
    → Loops contents offset records o
ends-Loops contents offset records o h e = record {
  result = stopped_at offset false records;
  returns = e;
  from = omega arith;
  within = omega (arith, h);
  truncated = ground arith;
  again = λ fuel k.
      loop_over fuel (take offset contents) offset records
        (omega (arith, h, length-take offset contents (omega (arith, h)))) (omega (arith, k));
}

-- One step of the loop, once it is known what is read.
loop_reads :
    (fuel : ℕ) (contents : List ℕ) (offset : ℕ) (records : List WalRecord) (r : WalRecord) (n : ℕ)
    → offset < length contents
    → decode_record (drop offset contents) ≡ ReadResult.read_ok r n
    → replay_loop (suc fuel) contents offset records
      ≡ replay_loop fuel contents (offset + n) (records ++ r ∷ [])
unfolding replay_loop
loop_reads fuel contents offset records r n h e = rw (lt→ltb _ _ h, e, replay_loop) refl

loop_stops :
    (fuel : ℕ) (contents : List ℕ) (offset : ℕ) (records : List WalRecord)
    → offset < length contents
    → (decode_record (drop offset contents) ≡ ReadResult.incomplete)
      ⊎ (decode_record (drop offset contents) ≡ ReadResult.corrupt)
    → replay_loop (suc fuel) contents offset records ≡ some (stopped_at offset true records)
unfolding replay_loop
loop_stops fuel contents offset records h (inl e) = rw (lt→ltb _ _ h, e, replay_loop) refl
loop_stops fuel contents offset records h (inr e) = rw (lt→ltb _ _ h, e, replay_loop) refl

read_again :
    (fuel : ℕ) (contents : List ℕ) (offset valid : ℕ) (records : List WalRecord) (r : WalRecord)
    (n : ℕ)
    → decode_record (drop offset contents) ≡ ReadResult.read_ok r n
    → 0 < n
    → offset + n ≤ valid
    → valid ≤ length contents
    → replay_loop (suc fuel) (take valid contents) offset records
      ≡ replay_loop fuel (take valid contents) (offset + n) (records ++ r ∷ [])
read_again fuel contents offset valid records r n e k h w =
    let size = length-take valid contents w in
    loop_reads fuel (take valid contents) offset records r n (omega (arith, size, h, k)) (
      decode_record_prefix (drop offset (take valid contents)) (drop valid contents) r n
        (ap decode_record (sym (drop-split offset valid contents (omega (arith, h)))) ∙ e)
        (omega (arith, size, h, length-drop offset (take valid contents))))

data Read (bytes : List ℕ) : Type 0 where
  reads : (r : WalRecord) (n : ℕ) → decode_record bytes ≡ ReadResult.read_ok r n → Read bytes
  stops :
      (decode_record bytes ≡ ReadResult.incomplete) ⊎ (decode_record bytes ≡ ReadResult.corrupt)
      → Read bytes

decode_record-Read : (bytes : List ℕ) (x : ReadResult) → decode_record bytes ≡ x → Read bytes
decode_record-Read bytes (ReadResult.read_ok r n) h = Read.reads r n h
decode_record-Read bytes ReadResult.incomplete h = Read.stops (inl h)
decode_record-Read bytes ReadResult.corrupt h = Read.stops (inr h)

reads-Loops :
    (fuel : ℕ) (contents : List ℕ) (offset : ℕ) (records : List WalRecord) (r : WalRecord) (n : ℕ)
    → offset < length contents
    → decode_record (drop offset contents) ≡ ReadResult.read_ok r n
    → 0 < n
    → Loops contents
        (offset + n)
        (records ++ r ∷ [])
        (replay_loop fuel contents (offset + n) (records ++ r ∷ []))
    → Loops contents offset records (replay_loop (suc fuel) contents offset records)
reads-Loops fuel contents offset records r n h e k l = record {
  result = l.result;
  returns = loop_reads fuel contents offset records r n h e ∙ l.returns;
  from = omega (arith, l.from);
  within = l.within;
  truncated = l.truncated;
  again = λ f w. again_from f w;
}
  where
    again_from :
        (f : ℕ)
        → l.result.valid_bytes < offset + f
        → replay_loop f (take l.result.valid_bytes contents) offset records
          ≡ some (record l.result { truncated = false })
    again_from zero w = absurd (omega (arith, w, l.from))
    again_from (suc f) w =
        read_again f contents offset l.result.valid_bytes records r n e k l.from l.within
        ∙ l.again f (omega (arith, w, k))

reads_or_stops :
    (fuel : ℕ) (contents : List ℕ) (offset : ℕ) (records : List WalRecord)
    → length contents < offset + suc fuel
    → offset < length contents
    → Read (drop offset contents)
    → ((n : ℕ) (rs : List WalRecord)
        → offset + n ≤ length contents
        → length contents < (offset + n) + fuel
        → Loops contents (offset + n) rs (replay_loop fuel contents (offset + n) rs))
    → Loops contents offset records (replay_loop (suc fuel) contents offset records)
reads_or_stops fuel contents offset records k on (Read.stops s) rest =
    stops-Loops contents offset records _ on (loop_stops fuel contents offset records on s)
reads_or_stops fuel contents offset records k on (Read.reads r n e) rest =
    let d = decode_record-Decodes (drop offset contents) r n e in
    let some_bytes : 0 < n = omega (arith, d.consumed) in
    reads-Loops fuel contents offset records r n on e some_bytes (
      rest n (records ++ r ∷ [])
        (omega (arith, d.consumed, d.long, length-drop offset contents, on))
        (omega (arith, k, some_bytes)))

loop-Loops :
    (fuel : ℕ) (contents : List ℕ) (offset : ℕ) (records : List WalRecord)
    → offset ≤ length contents
    → length contents < offset + fuel
    → Loops contents offset records (replay_loop fuel contents offset records)
loop-Loops zero contents offset records h k = absurd (omega (arith, h, k))
loop-Loops (suc fuel) contents offset records h k =
    elim (Bool-cases (ltb offset (length contents))) [
      | inr over ↦
          ends-Loops contents offset records _ (ground arith)
            (loop_over (suc fuel) contents offset records (ground arith) (omega arith))
      | inl on ↦
          reads_or_stops fuel contents offset records k (ltb→lt _ _ on)
            (decode_record-Read (drop offset contents) (decode_record (drop offset contents)) refl)
            (λ n rs. loop-Loops fuel contents (offset + n) rs)
    ]

pub record Replays (contents : List ℕ) : Type 0 where
  pub result : ReplayResult
  pub returns : replay contents ≡ some result
  pub within : result.valid_bytes ≤ length contents
  pub truncated : result.truncated ≡ ltb result.valid_bytes (length contents)
  pub again :
      replay (truncate_to result.valid_bytes contents) ≡ some (record result { truncated = false })

-- Replaying ends on every file, whatever its bytes are. The valid bytes are a beginning of the file, all
-- of it exactly where the log is not truncated; and a file that is cut back to them replays to the same
-- records, with nothing more to cut.
pub replay-Replays : (contents : List ℕ) → Replays contents
unfolding replay truncate_to
replay-Replays contents =
    let l = loop-Loops (suc (length contents)) contents 0 [] (omega arith) (omega arith) in
    record {
      result = l.result;
      returns = l.returns;
      within = l.within;
      truncated = l.truncated;
      again =
          l.again (suc (length (take l.result.valid_bytes contents)))
            (omega (arith, length-take l.result.valid_bytes contents l.within));
    }
