-- ===== src/WriteAheadLog.antt =====
-- store/write_ahead_log.hpp and store/write_ahead_log.cpp: the log as a file, with its counters. What
-- the operating system answers is part of the state, as a list of answers.
pub mod Write
pub mod Replay
pub mod Append
pub mod Valid
use multithreaded_exchange_s.WalRecord.{ReadResult, decode_record, encode_record, WalRecord}
use multithreaded_exchange_s.Command.{Command}
use multithreaded_exchange_s.Prelude.Word.{add64}
use multithreaded_exchange_s.Engine.{CommandLog, Logged}
use multithreaded_exchange_s.Prelude.{
  ℕ, zero, suc, ◌+◌, ◌-◌, ◌*◌, ◌/◌, ◌%◌, ◌^◌, ◌≤◌, ◌<◌, min, ◌≡◌, refl, sym, ap, ap₂, subst, ◌∙◌,
  ◌≢◌, ◌↔◌, ◌⊎◌, inl, inr, Bool, true, false, not, ◌&&◌, ◌||◌, Option, none, some, List, [], ◌∷◌,
  ◌++◌, map, append-nil, append_assoc, arith, ltb, leb, ◌==◌, if◌then◌else◌, ltb→lt, lt→ltb, ==_iff,
  Bool-cases, Option-cases, length, take, drop, length-append, take-append, drop-append, All,
  All-append, All-of, All-map, ◌>>=◌, precondition,
}

pub data SyncPolicy : Type 0 where
  always batch never : SyncPolicy

-- One answer of `write`: it took some bytes, EINTR, or another error. An answer that takes none of
-- a buffer that is not empty counts as an error in the code.
pub data Wrote : Type 0 where
  wrote : ℕ → Wrote
  interrupted : Wrote
  refused : Wrote

-- What happens in one append: the answers of `write`, after which it takes the rest; whether the
-- batch interval has passed; and whether fdatasync succeeds.
pub record Answer : Type 0 where
  pub writes : List Wrote
  pub interval_over : Bool
  pub syncs : Bool

pub record WriteAheadLog : Type 0 where
  pub file : List ℕ
  pub policy : SyncPolicy
  pub batch_records : ℕ
  pub next_sequence : ℕ
  pub records_written : ℕ
  pub sync_count : ℕ
  pub since_sync : ℕ
  pub answers : List Answer

-- writeFully: it returns, or throws StorageError; the file grows either way.
pub data Written : Type 0 where
  done threw : List ℕ → Written

unfoldable pub write_fully : List Wrote → List ℕ → List ℕ → Written
write_fully answers [] file = Written.done file
write_fully [] (b ∷ bs) file = Written.done (file ++ b ∷ bs)
write_fully (Wrote.wrote zero ∷ answers) (b ∷ bs) file = Written.threw file
write_fully (Wrote.wrote (suc n) ∷ answers) (b ∷ bs) file =
    write_fully answers (drop n bs) (file ++ b ∷ take n bs)
write_fully (Wrote.interrupted ∷ answers) (b ∷ bs) file = write_fully answers (b ∷ bs) file
write_fully (Wrote.refused ∷ answers) (b ∷ bs) file = Written.threw file

unfoldable pub should_sync : Bool → WriteAheadLog → Bool
should_sync interval_over l = elim l.policy [
  | SyncPolicy.always ↦ true
  | SyncPolicy.never ↦ false
  | SyncPolicy.batch ↦ if leb l.batch_records l.since_sync then true else interval_over
]

unfoldable pub sync_now : Bool → WriteAheadLog → Bool × WriteAheadLog
sync_now syncs l =
    if syncs
    then (true, record l { sync_count = add64 l.sync_count 1; since_sync = 0 })
    else (false, l)

abbrev pub next_answer : List Answer → Answer
next_answer [] = record { writes = []; interval_over = false; syncs = true }
next_answer (a ∷ rest) = a

abbrev pub other_answers : List Answer → List Answer
other_answers [] = []
other_answers (a ∷ rest) = rest

abbrev pub after_sync : ℕ → Bool × WriteAheadLog → Logged WriteAheadLog
after_sync sequence (true, l) = Logged.returned sequence l
after_sync sequence (false, l) = Logged.failed l

abbrev pub counted : WriteAheadLog → List ℕ → WriteAheadLog
counted l file = record l {
  file = file;
  next_sequence = add64 l.next_sequence 1;
  records_written = add64 l.records_written 1;
  since_sync = add64 l.since_sync 1;
}

abbrev pub after_write : Answer → WriteAheadLog → Written → Logged WriteAheadLog
after_write a l (Written.threw file) = Logged.failed (record l { file = file })
after_write a l (Written.done file) =
    if should_sync a.interval_over (counted l file)
    then after_sync l.next_sequence (sync_now a.syncs (counted l file))
    else Logged.returned l.next_sequence (counted l file)

unfoldable pub append : Command → WriteAheadLog → Logged WriteAheadLog
unfolding write_fully should_sync sync_now
append c l =
    let a = next_answer l.answers in
    after_write a (record l { answers = other_answers l.answers })
      (write_fully a.writes (encode_record l.next_sequence c) l.file)

unfoldable pub flush : WriteAheadLog → Bool × WriteAheadLog
unfolding sync_now
flush l = sync_now (next_answer l.answers).syncs (record l { answers = other_answers l.answers })

-- WriteAheadLog as an ICommandLog.
abbrev pub command_log : CommandLog WriteAheadLog
command_log = record { append = append; flush = flush }

pub record ReplayResult : Type 0 where
  pub records : List WalRecord
  pub valid_bytes : ℕ
  pub truncated : Bool

abbrev pub stopped_at : ℕ → Bool → List WalRecord → ReplayResult
stopped_at offset truncated records = record {
  records = records;
  valid_bytes = offset;
  truncated = truncated;
}

-- The loop of replay over the contents of the file; none is fuel that is used up.
unfoldable pub replay_loop : ℕ → List ℕ → ℕ → List WalRecord → Option ReplayResult
replay_loop zero contents offset records = none
replay_loop (suc fuel) contents offset records =
    if ltb offset (length contents)
    then elim (decode_record (drop offset contents)) [
      | ReadResult.read_ok r n ↦ replay_loop fuel contents (offset + n) (records ++ r ∷ [])
      | ReadResult.incomplete ↦ some (stopped_at offset true records)
      | ReadResult.corrupt ↦ some (stopped_at offset true records)
    ]
    else some (stopped_at offset false records)

unfoldable pub replay : List ℕ → Option ReplayResult
replay contents = replay_loop (suc (length contents)) contents 0 []

-- The constructor: the sequence goes on where the file ends. A file that is there is not changed.
abbrev pub last_sequence : List WalRecord → Option ℕ
last_sequence [] = none
last_sequence (r ∷ []) = some r.sequence
last_sequence (r ∷ q ∷ rs) = last_sequence (q ∷ rs)

abbrev pub sequence_after : Option ℕ → ℕ
sequence_after none = 1
sequence_after (some s) = add64 s 1

unfoldable pub make_log : SyncPolicy → ℕ → List ℕ → List Answer → Option WriteAheadLog
make_log policy batch_records file answers = replay file >>= λ existing. some (record {
  file = file;
  policy = policy;
  batch_records = batch_records;
  next_sequence = sequence_after (last_sequence existing.records);
  records_written = 0;
  sync_count = 0;
  since_sync = 0;
  answers = answers;
})

unfoldable pub truncate_to : ℕ → List ℕ → List ℕ
truncate_to valid_bytes file = take valid_bytes file
