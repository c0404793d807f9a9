-- ===== src/Recovery/Live.antt =====
-- core/engine.cpp, store/write_ahead_log.cpp and store/recovery.cpp together: the book of a run and
-- the book of its log.
use multithreaded_exchange_s.Command.{apply_command, applied_book, Applied, Command, history}
use multithreaded_exchange_s.Engine.Replay.{
  log_after, taken_returned, serve_all-log, serve_all-history, left, taken,
}
use multithreaded_exchange_s.Engine.Serves.{some_of}
use multithreaded_exchange_s.Recovery.History.{replay_all-history}
use multithreaded_exchange_s.WriteAheadLog.Append.{other_answers-IsFine, append-fine, IsFine}
use multithreaded_exchange_s.Recovery.{
  first_report, replay_all, trimmed, RecoveryReport, recover_book_only,
}
use multithreaded_exchange_s.Prelude.Word.{add64_exact}
use multithreaded_exchange_s.WriteAheadLog.Replay.{
  replay-encode_all, TornTail, encode_all, stored_all,
}
use multithreaded_exchange_s.Engine.Loop.{serve_all}
use multithreaded_exchange_s.WriteAheadLog.{command_log, stopped_at, WriteAheadLog, truncate_to}
use multithreaded_exchange_s.WalRecord.RoundTrip.{stored_command, FitsCommand}
use multithreaded_exchange_s.WalRecord.{WalRecord, encode_record}
use multithreaded_exchange_s.Engine.{Engine}
use multithreaded_exchange_s.Book.Types.{Book}
use multithreaded_exchange_s.Prelude.{
  ℕ, suc, ◌+◌, ◌^◌, ◌<◌, ◌≡◌, refl, sym, ap, ap₂, subst, ◌∙◌, Bool, Option, none, some, List, [],
  ◌∷◌, ◌++◌, map, append-nil, append_assoc, arith, length, length-append, take-append, All, All-map,
  ◌>>=◌,
}

encode_all-append :
    (start : ℕ) (done cs : List Command)
    → encode_all start (done ++ cs) ≡ encode_all start done ++ encode_all (start + length done) cs
unfolding encode_all
encode_all-append start [] cs = ap (λ n. encode_all n cs) (omega arith)
encode_all-append start (d ∷ done) cs =
    ap (λ l. encode_record start d ++ l)
      (encode_all-append (suc start) done cs
        ∙ ap (λ n. encode_all (suc start) done ++ encode_all n cs) (omega arith))
    ∙ sym (
        append_assoc (encode_record start d) (encode_all (suc start) done)
          (encode_all (start + length (d ∷ done)) cs))

-- A log without a failure takes every command, and its file holds their records.
record TakesAll (cs : List Command) (l : WriteAheadLog) : Type 0 where
  taken_all : taken command_log cs (some l) ≡ cs
  file : (left command_log cs l).file ≡ l.file ++ encode_all l.next_sequence cs

fine-TakesAll :
    (cs : List Command) (l : WriteAheadLog)
    → All IsFine l.answers
    → l.next_sequence + length cs < 2 ^ 64
    → TakesAll cs l
unfolding taken left encode_all
fine-TakesAll [] l h w = record { taken_all = refl; file = sym (append-nil l.file) }
fine-TakesAll (c ∷ cs) l h w =
    let (k, e, kept) = append-fine c l h in
    let next : k.next_sequence ≡ suc l.next_sequence =
      kept.next_sequence ∙ (add64_exact l.next_sequence 1 (omega (arith, w)) ∙ omega arith) in
    let rest =
      fine-TakesAll cs k (subst (All IsFine) (sym kept.answers) (other_answers-IsFine l.answers h))
        (omega (arith, next, w)) in
    record {
      taken_all =
          taken_returned command_log c cs l k l.next_sequence e ∙ ap (λ x. c ∷ x) rest.taken_all;
      file =
          ap (λ r. (left command_log cs (log_after r)).file) e
          ∙ (rest.file
              ∙ (ap₂ (λ f n. f ++ encode_all n cs) kept.file next
                  ∙ append_assoc l.file (encode_record l.next_sequence c)
                      (encode_all (suc l.next_sequence) cs)));
    }

applied_then :
    (m : Option Applied) (xs ys : List Command) (b : Book)
    → ((d : Book) → history (xs ++ ys) d ≡ (history xs d >>= λ m. history ys m))
    → (m >>= λ a. history (xs ++ ys) (applied_book b a))
      ≡ ((m >>= λ a. history xs (applied_book b a)) >>= λ d. history ys d)
applied_then none xs ys b h = refl
applied_then (some a) xs ys b h = h (applied_book b a)

history-append :
    (xs ys : List Command) (b : Book) → history (xs ++ ys) b ≡ (history xs b >>= λ m. history ys m)
unfolding history
history-append [] ys b = refl
history-append (x ∷ xs) ys b = applied_then (apply_command b x) xs ys b (history-append xs ys)

-- A command that its record gives back: its fields fit their widths, and it is not the submission of an
-- iceberg that shows its whole quantity, which is recorded as a limit order.
pub record IsStorable (c : Command) : Type 0 where
  pub fits : FitsCommand c
  pub kept : stored_command c ≡ c

stored_commands :
    (start : ℕ) (cs : List Command)
    → All IsStorable cs
    → map (λ w. w.command) (stored_all start cs) ≡ cs
unfolding stored_all
stored_commands start [] h = refl
stored_commands start (c ∷ cs) h =
    ap₂ (λ d ds. d ∷ ds) h.0.kept (stored_commands (suc start) cs h.1)

trimmed_tail :
    (file tail : List ℕ) (records : List WalRecord) {truncated : Bool}
    → TornTail tail truncated
    → trimmed (stopped_at (length file) truncated records) (file ++ tail) ≡ file
unfolding truncate_to
trimmed_tail file tail records TornTail.nothing = append-nil file
trimmed_tail file tail records (TornTail.torn b bs more s c h e) = take-append file (b ∷ bs)

pub record Recovered (b : Book) (file : List ℕ) (found : Option (Book × RecoveryReport × List ℕ))
    : Type 0 where
  pub report : RecoveryReport
  pub found_it : found ≡ some (b, report, file)

-- Recovering from a file of records that end in a torn one or in none.
pub recover-Recovered :
    (cs : List Command) (tail : List ℕ) (truncated : Bool) (b after : Book)
    → All IsStorable cs
    → 1 + length cs < 2 ^ 64
    → TornTail tail truncated
    → history cs b ≡ some after
    → Recovered after (encode_all 1 cs) (recover_book_only (encode_all 1 cs ++ tail) b)
unfolding recover_book_only
recover-Recovered cs tail truncated b after h w t k =
    let file = encode_all 1 cs in
    let found = stopped_at (length file) truncated (stored_all 1 cs) in
    let read =
      replay-encode_all 1 cs tail truncated (All-map IsStorable FitsCommand (λ c s. s.fits) cs h) w
        t in
    let book : (replay_all (stored_all 1 cs) b (first_report found) >>= λ out. some out.0)
        ≡ some after =
      replay_all-history (stored_all 1 cs) b (first_report found)
      ∙ (ap (λ x. history x b) (stored_commands 1 cs h) ∙ k) in
    let out = some_of (replay_all (stored_all 1 cs) b (first_report found)) (λ o. o.0) after book in
    record {
      report = out.0.1;
      found_it =
          ap
            (λ m. m >>= λ replayed. replay_all replayed.records b (first_report replayed) >>= λ o.
              some (o.0, o.1, trimmed replayed (file ++ tail)))
            read
          ∙ (ap (λ m. m >>= λ o. some (o.0, o.1, trimmed found (file ++ tail))) out.1
              ∙ ap₂ (λ d f. some (d, out.0.1, f)) out.2
                  (trimmed_tail file tail (stored_all 1 cs) t));
    }

-- A log on a file that holds the records of earlier commands, and the book that they left; from there an
-- engine serves further commands while no write and no fdatasync fails. Every command, earlier or further,
-- is one that its record gives back: its fields fit their widths, and it submits no iceberg that shows its
-- whole quantity, and only orders as they are built. Then the log's file holds the records of all of them,
-- and recovering from it gives the engine's own book and leaves these records in the file, with a torn
-- record behind them or with none. The sequence numbers fit 64 bits.
pub serve_all-recover :
    (old cs : List Command) (e s : Engine WriteAheadLog) (l : WriteAheadLog) (b : Book)
    (tail : List ℕ) (truncated : Bool)
    → e.log ≡ some l
    → l.file ≡ encode_all 1 old
    → l.next_sequence ≡ 1 + length old
    → history old b ≡ some e.book
    → All IsFine l.answers
    → All IsStorable (old ++ cs)
    → 1 + length (old ++ cs) < 2 ^ 64
    → TornTail tail truncated
    → serve_all command_log cs e ≡ some s
    → (k : WriteAheadLog) × (s.log ≡ some k)
      × (k.file ≡ encode_all 1 (old ++ cs))
      × Recovered s.book k.file (recover_book_only (k.file ++ tail) b)
serve_all-recover old cs e s l b tail truncated g f n o fine h w t m =
    let takes = fine-TakesAll cs l fine (omega (arith, n, w, length-append old cs)) in
    let file : (left command_log cs l).file ≡ encode_all 1 (old ++ cs) =
      takes.file ∙ (ap₂ (λ x y. x ++ encode_all y cs) f n ∙ sym (encode_all-append 1 old cs)) in
    let live = (serve_all-history command_log cs e s m).0 in
    let whole : history (old ++ cs) b ≡ some s.book =
      history-append old cs b
      ∙ (ap (λ x. x >>= λ d. history cs d) o
          ∙ (ap (λ x. history x e.book) (sym takes.taken_all)
              ∙ (ap (λ x. history (taken command_log cs x) e.book) (sym g) ∙ live))) in
    (
      left command_log cs l,
      serve_all-log command_log cs e s l g m,
      file,
      subst (λ x. Recovered s.book x (recover_book_only (x ++ tail) b)) (sym file)
          (recover-Recovered (old ++ cs) tail truncated b s.book h w t whole),
    )
