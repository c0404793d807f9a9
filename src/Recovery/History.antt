-- ===== src/Recovery/History.antt =====
-- store/recovery.cpp: the two ways to recover, against the history of the records.
use multithreaded_exchange_s.Recovery.{
  trimmed, first_report, recover_book_only, recover, empty_report, add_step, replay_one, report_of,
  RecoveryReport, recover_all, replay_all,
}
use multithreaded_exchange_s.WriteAheadLog.{replay, ReplayResult}
use multithreaded_exchange_s.Command.{apply_command, applied_book, history, Applied, Command}
use multithreaded_exchange_s.WalRecord.{WalRecord}
use multithreaded_exchange_s.Prelude.Word.{add64-lt, u64_mod, add64}
use multithreaded_exchange_s.Book.Types.{Book}
use multithreaded_exchange_s.Prelude.{
  ℕ, ◌<◌, ◌≡◌, refl, ap, ◌∙◌, inl, inr, Option, none, some, List, [], ◌∷◌, map, arith, Bool-cases,
  length, ◌>>=◌,
}

history_applied :
    (cs : List Command) (m : Option Applied) (b : Book) (f : Applied → RecoveryReport)
    → (replay : Book → RecoveryReport → Option (Book × RecoveryReport))
    → ((d : Book) (r : RecoveryReport) → (replay d r >>= λ out. some out.0) ≡ history cs d)
    → ((◌>>=◌ {B = Book × RecoveryReport} m (λ a. some (applied_book b a, f a)) >>= λ out.
          replay out.0 out.1)
        >>= λ out. some out.0)
      ≡ (m >>= λ a. history cs (applied_book b a))
history_applied cs none b f replay h = refl
history_applied cs (some a) b f replay h = h (applied_book b a) (f a)

-- What recoverBookOnly does with the records leaves the book that their commands leave.
pub replay_all-history :
    (ws : List WalRecord) (b : Book) (r : RecoveryReport)
    → (replay_all ws b r >>= λ out. some out.0) ≡ history (map (λ w. w.command) ws) b
unfolding replay_all history replay_one
replay_all-history [] b r = refl
replay_all-history (w ∷ ws) b r =
    history_applied (map (λ v. v.command) ws) (apply_command b w.command) b
      (λ a. record (report_of a r) { last_sequence = w.sequence }) (replay_all ws)
      (replay_all-history ws)

-- The counters that are unsigned 64-bit integers.
record FitsReport (r : RecoveryReport) : Type 0 where
  replayed : r.records_replayed < u64_mod
  rejected : r.records_rejected < u64_mod
  fills : r.fills_replayed < u64_mod

add_nothing : (n : ℕ) → n < u64_mod → add64 n 0 ≡ n
unfolding add64
add_nothing n h = omega (arith, h)

add_to_zero : (n m : ℕ) → add64 n (add64 0 m) ≡ add64 n m
unfolding add64
add_to_zero n m = omega arith

abbrev pub with_persisted : ℕ → RecoveryReport → RecoveryReport
with_persisted n r = record r { fills_persisted = n }

counts :
    (r : RecoveryReport) (last : ℕ) {a a' b b' c c' : ℕ}
    → a ≡ a'
    → b ≡ b'
    → c ≡ c'
    → (n : ℕ)
    → with_persisted n (record r {
      records_replayed = a;
      records_rejected = b;
      fills_replayed = c;
      last_sequence = last;
    })
      ≡ with_persisted n (record r {
        records_replayed = a';
        records_rejected = b';
        fills_replayed = c';
        last_sequence = last;
      })
counts r last p q s n = rw (p, q, s) refl

-- Adding the report of one record is counting that record.
step_counts :
    (persisted_through sequence : ℕ) (a : Applied) (r : RecoveryReport) (n : ℕ)
    → FitsReport r
    → (m : ℕ) × (add_step persisted_through sequence
          (with_persisted n r)
          (record (report_of a empty_report) { last_sequence = sequence })
        ≡ with_persisted m (record (report_of a r) { last_sequence = sequence }))
step_counts p sequence (Applied.refused x) r n h = (
  _,
  counts r sequence (add_nothing r.records_replayed h.replayed) (add_to_zero r.records_rejected 1)
      (add_nothing r.fills_replayed h.fills) _,
)
step_counts p sequence (Applied.applied o after) r n h = elim (Bool-cases (o.accepted)) [
  | inl k ↦ simp k (
    _,
    counts r sequence (add_to_zero r.records_replayed 1) (add_nothing r.records_rejected h.rejected)
        (add_to_zero r.fills_replayed (length o.fills)) _,
  )
  | inr k ↦ simp k (
    _,
    counts r sequence (add_nothing r.records_replayed h.replayed) (add_to_zero r.records_rejected 1)
        (add_to_zero r.fills_replayed (length o.fills)) _,
  )
]

step-FitsReport :
    (sequence : ℕ) (a : Applied) (r : RecoveryReport)
    → FitsReport r
    → FitsReport (record (report_of a r) { last_sequence = sequence })
step-FitsReport sequence (Applied.refused x) r h = record {
  replayed = h.replayed;
  rejected = add64-lt _ 1;
  fills = h.fills;
}
step-FitsReport sequence (Applied.applied o after) r h = elim (Bool-cases (o.accepted)) [
  | inl k ↦ simp k (record { replayed = add64-lt _ 1; rejected = h.rejected; fills = add64-lt _ _ })
  | inr k ↦ simp k (record { replayed = h.replayed; rejected = add64-lt _ 1; fills = add64-lt _ _ })
]

-- The book, and the report with its count of persisted fills removed.
abbrev pub but_persisted : Book × RecoveryReport → Book × RecoveryReport
but_persisted (b, r) = (b, with_persisted 0 r)

recover_applied :
    (p sequence : ℕ) (m : Option Applied) (b : Book) (r : RecoveryReport) (n : ℕ)
    (whole book_only : Book → RecoveryReport → Option (Book × RecoveryReport))
    → FitsReport r
    → ((d : Book) (s : RecoveryReport) (k : ℕ)
        → FitsReport s
        → (whole d (with_persisted k s) >>= λ out. some (but_persisted out))
          ≡ (book_only d s >>= λ out. some (but_persisted out)))
    → ((◌>>=◌ {B = Book × RecoveryReport} m (λ a.
            some (applied_book b a, record (report_of a empty_report) { last_sequence = sequence }))
          >>= λ out. whole out.0 (add_step p sequence (with_persisted n r) out.1))
        >>= λ out. some (but_persisted out))
      ≡ ((◌>>=◌ {B = Book × RecoveryReport} m
              (λ a. some (applied_book b a, record (report_of a r) { last_sequence = sequence }))
            >>= λ out. book_only out.0 out.1)
          >>= λ out. some (but_persisted out))
recover_applied p sequence none b r n whole book_only h ih = refl
recover_applied p sequence (some a) b r n whole book_only h ih =
    let step = step_counts p sequence a r n h in
    ap (λ s. whole (applied_book b a) s >>= λ out. some (but_persisted out)) step.1
    ∙ ih (applied_book b a) (record (report_of a r) { last_sequence = sequence }) step.0
        (step-FitsReport sequence a r h)

recover_all-replay_all :
    (p : ℕ) (ws : List WalRecord) (b : Book) (r : RecoveryReport) (n : ℕ)
    → FitsReport r
    → (recover_all p ws b (with_persisted n r) >>= λ out. some (but_persisted out))
      ≡ (replay_all ws b r >>= λ out. some (but_persisted out))
unfolding recover_all replay_all replay_one
recover_all-replay_all p [] b r n h = refl
recover_all-replay_all p (w ∷ ws) b r n h =
    recover_applied p w.sequence (apply_command b w.command) b r n (recover_all p ws)
      (replay_all ws) h (recover_all-replay_all p ws)

-- What a recovery gives, with the count of persisted fills removed from its report.
unfoldable pub compared : Book × RecoveryReport × List ℕ → Book × RecoveryReport × List ℕ
compared (b, r, file) = (b, with_persisted 0 r, file)

finished :
    (m n : Option (Book × RecoveryReport)) (file : List ℕ)
    → (m >>= λ out. some (but_persisted out)) ≡ (n >>= λ out. some (but_persisted out))
    → ((m >>= λ out. some (out.0, out.1, file)) >>= λ out. some (compared out))
      ≡ ((n >>= λ out. some (out.0, out.1, file)) >>= λ out. some (compared out))
unfolding compared
finished none none file h = refl
finished none (some y) file h = absurd (cc)
finished (some x) none file h = absurd (cc)
finished (some x) (some y) file h = ap (λ o. o >>= λ out. some (out.0, out.1, file)) h

replayed_equally :
    (p : ℕ) (m : Option ReplayResult) (file : List ℕ) (b : Book)
    → ((m >>= λ replayed. recover_all p replayed.records b (first_report replayed) >>= λ out.
          some (out.0, out.1, trimmed replayed file))
        >>= λ out. some (compared out))
      ≡ ((m >>= λ replayed. replay_all replayed.records b (first_report replayed) >>= λ out.
            some (out.0, out.1, trimmed replayed file))
          >>= λ out. some (compared out))
replayed_equally p none file b = refl
replayed_equally p (some x) file b =
    finished (recover_all p x.records b (first_report x)) (replay_all x.records b (first_report x))
      (trimmed x file)
      (recover_all-replay_all p x.records b (first_report x) 0
        (record { replayed = omega arith; rejected = omega arith; fills = omega arith }))

-- Whatever the database says it has, recovering with it and recovering the book alone are the same: the
-- same book, the same file left behind and the same report, but for the count of fills that were
-- persisted; and the one is undefined behaviour where the other is.
pub recover-recover_book_only :
    (persisted_through : ℕ) (file : List ℕ) (b : Book)
    → (recover persisted_through file b >>= λ out. some (compared out))
      ≡ (recover_book_only file b >>= λ out. some (compared out))
unfolding recover recover_book_only
recover-recover_book_only p file b = replayed_equally p (replay file) file b
