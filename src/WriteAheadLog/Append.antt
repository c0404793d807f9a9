-- ===== src/WriteAheadLog/Append.antt =====
-- WriteAheadLog::append of store/write_ahead_log.cpp: what the file holds afterwards.
use multithreaded_exchange_s.WriteAheadLog.{
  counted, after_write, WriteAheadLog, Written, next_answer, other_answers, sync_now, Answer, Wrote,
  should_sync, write_fully, append,
}
use multithreaded_exchange_s.Prelude.Word.{add64}
use multithreaded_exchange_s.WalRecord.{encode_record}
use multithreaded_exchange_s.Engine.{Logged}
use multithreaded_exchange_s.WriteAheadLog.Write.{Writes, write_fully-Writes}
use multithreaded_exchange_s.Command.{Command}
use multithreaded_exchange_s.Prelude.{
  ℕ, zero, suc, ◌<◌, ◌≡◌, refl, ◌≢◌, inl, inr, true, false, List, [], ◌∷◌, ◌++◌, arith, Bool-cases,
  length, take, drop, All,
}

-- The ways an append ends. It returns with the whole record in the file. It throws with the whole
-- record in the file, since fdatasync failed, or with a proper beginning of it.
pub data Appends (c : Command) (l : WriteAheadLog) : Logged WriteAheadLog → Type 0 where
  kept :
      (k : WriteAheadLog)
      → k.file ≡ l.file ++ encode_record l.next_sequence c
      → k.next_sequence ≡ add64 l.next_sequence 1
      → k.answers ≡ other_answers l.answers
      → Appends c l (Logged.returned l.next_sequence k)
  unsynced :
      (k : WriteAheadLog)
      → k.file ≡ l.file ++ encode_record l.next_sequence c
      → k.next_sequence ≡ add64 l.next_sequence 1
      → (next_answer l.answers).syncs ≡ false
      → Appends c l (Logged.failed k)
  torn :
      (k : WriteAheadLog) (some_bytes rest : List ℕ)
      → k.file ≡ l.file ++ some_bytes
      → some_bytes ++ rest ≡ encode_record l.next_sequence c
      → 0 < length rest
      → k.next_sequence ≡ l.next_sequence
      → Appends c l (Logged.failed k)

after_write-Appends :
    (c : Command) (l : WriteAheadLog) {w : Written}
    → Writes (encode_record l.next_sequence c) l.file w
    → Appends c l
        (after_write (next_answer l.answers) (record l { answers = other_answers l.answers }) w)
unfolding should_sync sync_now
after_write-Appends c l Writes.all =
    let base = record l { answers = other_answers l.answers } in
    let file = l.file ++ encode_record l.next_sequence c in
    elim (Bool-cases (should_sync (next_answer l.answers).interval_over (counted base file))) [
      | inr s ↦ simp s (Appends.kept (counted base file) refl refl refl)
      | inl s ↦ elim (Bool-cases ((next_answer l.answers).syncs)) [
        | inl y ↦ simp (s, y) (Appends.kept _ refl refl refl)
        | inr y ↦ simp (s, y) (Appends.unsynced (counted base file) refl refl y)
      ]
    ]
after_write-Appends c l (Writes.part xs ys e h) = Appends.torn _ xs ys refl e h refl

-- Whatever `write` and fdatasync answer, an append ends. Where it returns, the file has grown by exactly
-- the record with the next sequence number. Where it throws, the file has grown by the whole record, for
-- which fdatasync failed, or by a proper beginning of it, and then the number is used again.
pub append-Appends : (c : Command) (l : WriteAheadLog) → Appends c l (append c l)
unfolding append
append-Appends c l =
    after_write-Appends c l
      (write_fully-Writes (next_answer l.answers).writes (encode_record l.next_sequence c) l.file)

-- An answer without a failure.
abbrev pub IsFineWrite : Wrote → Type 0
IsFineWrite (Wrote.wrote n) = 0 < n
IsFineWrite Wrote.interrupted = Unit
IsFineWrite Wrote.refused = ⊥

pub record IsFine (a : Answer) : Type 0 where
  pub writes : All IsFineWrite a.writes
  pub syncs : a.syncs ≡ true

fine_writes :
    (answers : List Wrote) (bytes file f : List ℕ)
    → All IsFineWrite answers
    → write_fully answers bytes file ≢ Written.threw f
unfolding write_fully
fine_writes answers [] file f h e = cc
fine_writes [] (b ∷ bs) file f h e = cc
fine_writes (Wrote.wrote zero ∷ answers) (b ∷ bs) file f h e = omega (arith, h.0)
fine_writes (Wrote.wrote (suc n) ∷ answers) (b ∷ bs) file f h e =
    fine_writes answers (drop n bs) (file ++ b ∷ take n bs) f h.1 e
fine_writes (Wrote.interrupted ∷ answers) (b ∷ bs) file f h e =
    fine_writes answers (b ∷ bs) file f h.1 e
fine_writes (Wrote.refused ∷ answers) (b ∷ bs) file f h e = h.0

next_answer-IsFine : (answers : List Answer) → All IsFine answers → IsFine (next_answer answers)
next_answer-IsFine [] h = record { writes = tt; syncs = refl }
next_answer-IsFine (a ∷ rest) h = h.0

pub other_answers-IsFine :
    (answers : List Answer) → All IsFine answers → All IsFine (other_answers answers)
other_answers-IsFine [] h = tt
other_answers-IsFine (a ∷ rest) h = h.1

-- What a log is after an append that returns.
pub record Kept (c : Command) (l k : WriteAheadLog) : Type 0 where
  pub file : k.file ≡ l.file ++ encode_record l.next_sequence c
  pub next_sequence : k.next_sequence ≡ add64 l.next_sequence 1
  pub answers : k.answers ≡ other_answers l.answers

after_write-fine :
    (c : Command) (l : WriteAheadLog) (w : Written)
    → IsFine (next_answer l.answers)
    → ((f : List ℕ) → w ≢ Written.threw f)
    → Writes (encode_record l.next_sequence c) l.file w
    → (k : WriteAheadLog) × (after_write
          (next_answer l.answers)
          (record l { answers = other_answers l.answers })
          w
        ≡ Logged.returned l.next_sequence k)
      × Kept c l k
unfolding should_sync sync_now
after_write-fine c l _ fine never Writes.all =
    let base = record l { answers = other_answers l.answers } in
    let file = l.file ++ encode_record l.next_sequence c in
    elim (Bool-cases (should_sync (next_answer l.answers).interval_over (counted base file))) [
      | inr s ↦ (
        counted base file,
        simp s refl,
        record { file = refl; next_sequence = refl; answers = refl },
      )
      | inl s ↦ (
        record (counted base file) { sync_count = add64 l.sync_count 1; since_sync = 0 },
        simp (s, fine.syncs) refl,
        record { file = refl; next_sequence = refl; answers = refl },
      )
    ]
after_write-fine c l _ fine never (Writes.part xs ys e h) = absurd (never _ refl)

pub append-fine :
    (c : Command) (l : WriteAheadLog)
    → All IsFine l.answers
    → (k : WriteAheadLog) × (append c l ≡ Logged.returned l.next_sequence k) × Kept c l k
unfolding append
append-fine c l h =
    let a = next_answer-IsFine l.answers h in
    let bytes = encode_record l.next_sequence c in
    after_write-fine c l (write_fully (next_answer l.answers).writes bytes l.file) a
      (λ f. fine_writes (next_answer l.answers).writes bytes l.file f a.writes)
      (write_fully-Writes (next_answer l.answers).writes bytes l.file)
