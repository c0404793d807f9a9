-- ===== src/Recovery.antt =====
-- store/recovery.hpp and store/recovery.cpp: the book from the log. A file is its bytes; a failure to
-- open, read or truncate it, which is thrown, is not modelled.
pub mod History
pub mod Live
pub mod Storable
use multithreaded_exchange_s.Command.{apply_command, Applied, applied_book}
use multithreaded_exchange_s.WalRecord.{WalRecord}
use multithreaded_exchange_s.Prelude.Word.{add64}
use multithreaded_exchange_s.Book.Types.{Book}
use multithreaded_exchange_s.WriteAheadLog.{replay, ReplayResult, truncate_to}
use multithreaded_exchange_s.Prelude.{
  ℕ, zero, suc, ◌+◌, ◌-◌, ◌*◌, ◌/◌, ◌%◌, ◌^◌, ◌≤◌, ◌<◌, min, ◌≡◌, refl, sym, ap, ap₂, subst, ◌∙◌,
  ◌≢◌, ◌↔◌, ◌⊎◌, inl, inr, Bool, true, false, not, ◌&&◌, ◌||◌, Option, none, some, List, [], ◌∷◌,
  ◌++◌, map, append-nil, append_assoc, arith, ltb, leb, ◌==◌, if◌then◌else◌, ltb→lt, lt→ltb, ==_iff,
  Bool-cases, Option-cases, length, take, drop, length-append, take-append, drop-append, All,
  All-append, All-of, All-map, ◌>>=◌, precondition,
}

pub record RecoveryReport : Type 0 where
  pub records_replayed : ℕ
  pub records_rejected : ℕ
  pub fills_replayed : ℕ
  pub fills_persisted : ℕ
  pub log_truncated : Bool
  pub valid_bytes : ℕ
  pub last_sequence : ℕ

abbrev pub empty_report : RecoveryReport
empty_report = record {
  records_replayed = 0;
  records_rejected = 0;
  fills_replayed = 0;
  fills_persisted = 0;
  log_truncated = false;
  valid_bytes = 0;
  last_sequence = 0;
}

abbrev pub report_accepted : Bool → RecoveryReport → RecoveryReport
report_accepted true r = record r { records_replayed = add64 r.records_replayed 1 }
report_accepted false r = record r { records_rejected = add64 r.records_rejected 1 }

abbrev pub report_of : Applied → RecoveryReport → RecoveryReport
report_of (Applied.refused x) r = record r { records_rejected = add64 r.records_rejected 1 }
report_of (Applied.applied o b) r = record (report_accepted o.accepted r) {
  fills_replayed = add64 r.fills_replayed (length o.fills);
}

unfoldable pub replay_one : Book → WalRecord → RecoveryReport → Option (Book × RecoveryReport)
replay_one b w r = apply_command b w.command >>= λ a.
    some (applied_book b a, record (report_of a r) { last_sequence = w.sequence })

unfoldable pub replay_all : List WalRecord → Book → RecoveryReport → Option (Book × RecoveryReport)
unfolding replay_one
replay_all [] b r = some (b, r)
replay_all (w ∷ ws) b r = replay_one b w r >>= λ out. replay_all ws out.0 out.1

abbrev pub trimmed : ReplayResult → List ℕ → List ℕ
trimmed replayed file = if replayed.truncated then truncate_to replayed.valid_bytes file else file

abbrev pub first_report : ReplayResult → RecoveryReport
first_report replayed = record empty_report {
  log_truncated = replayed.truncated;
  valid_bytes = replayed.valid_bytes;
}

-- The book, the report, and the file that is left.
unfoldable pub recover_book_only : List ℕ → Book → Option (Book × RecoveryReport × List ℕ)
recover_book_only file b = replay file >>= λ replayed.
    replay_all replayed.records b (first_report replayed) >>= λ out.
    some (out.0, out.1, trimmed replayed file)

-- The report with that of one record added, whose sequence number is compared with the last one that
-- the database has fills of.
abbrev pub add_step : ℕ → ℕ → RecoveryReport → RecoveryReport → RecoveryReport
add_step persisted_through sequence r step = record r {
  records_replayed = add64 r.records_replayed step.records_replayed;
  records_rejected = add64 r.records_rejected step.records_rejected;
  fills_replayed = add64 r.fills_replayed step.fills_replayed;
  last_sequence = sequence;
  fills_persisted =
      if ltb persisted_through sequence
      then add64 r.fills_persisted step.fills_replayed
      else r.fills_persisted;
}

unfoldable pub recover_all :
    ℕ → List WalRecord → Book → RecoveryReport → Option (Book × RecoveryReport)
unfolding replay_one
recover_all persisted_through [] b r = some (b, r)
recover_all persisted_through (w ∷ ws) b r = replay_one b w empty_report >>= λ out.
    recover_all persisted_through ws out.0 (add_step persisted_through w.sequence r out.1)

-- `persisted_through` is what the database answers for lastFillSequence.
unfoldable pub recover : ℕ → List ℕ → Book → Option (Book × RecoveryReport × List ℕ)
recover persisted_through file b = replay file >>= λ replayed.
    recover_all persisted_through replayed.records b (first_report replayed) >>= λ out.
    some (out.0, out.1, trimmed replayed file)
