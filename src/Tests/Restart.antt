-- ===== src/Tests/Restart.antt =====
-- The theorem on the recovery of a run, at a run that goes on after a restart.
use multithreaded_exchange_s.Matching.{sweep}
use multithreaded_exchange_s.Wire.{emit, put_u32}
use multithreaded_exchange_s.Entry.Aggressor.{sum_fills}
use multithreaded_exchange_s.WalRecord.{encode_record}
use multithreaded_exchange_s.WriteAheadLog.{
  should_sync, write_fully, command_log, SyncPolicy, WriteAheadLog, append,
}
use multithreaded_exchange_s.Command.{applied_book, from_submit, Command, apply_command, history}
use multithreaded_exchange_s.WriteAheadLog.Replay.{TornTail, encode_all}
use multithreaded_exchange_s.Prelude.{
  false, inl, ◌++◌, arith, [], All, ◌∷◌, some, ◌≡◌, refl, ap, ◌>>=◌,
}
use multithreaded_exchange_s.Tests.{
  sell_hidden-clean, sell_hidden-new, sell_five-IsLive, sell_hidden-IsLive, new_book-BookOk,
  one_offer-BookOk, sell_five, sell_hidden, one_offer,
}
use multithreaded_exchange_s.Recovery.Live.{serve_all-recover, Recovered, IsStorable}
use multithreaded_exchange_s.Recovery.{recover_book_only}
use multithreaded_exchange_s.Entry.Submit.{book_after, submit-entered, entry_of}
use multithreaded_exchange_s.Engine.Replay.{left}
use multithreaded_exchange_s.Book.{Submitted}
use multithreaded_exchange_s.Engine.{mutate, apply, mutated, caught, serve, Engine}
use multithreaded_exchange_s.Book.Types.{new_book, Book, SubmitResult}
use multithreaded_exchange_s.Order.{Order, resting_price, display_size, visible_qty}
use multithreaded_exchange_s.Tests.Run.{engine_with}
use multithreaded_exchange_s.Validity.{count_levels}
use multithreaded_exchange_s.Types.{opposite}
use multithreaded_exchange_s.Engine.Loop.{serve_all}
use multithreaded_exchange_s.WalRecord.RoundTrip.{stored_order}
use multithreaded_exchange_s.Book

-- The log after one restart: the record of an offer is in it.
abbrev reopened : WriteAheadLog
reopened = record {
  file = encode_all 1 (Command.submit sell_five ∷ []);
  policy = SyncPolicy.never;
  batch_records = 64;
  next_sequence = 2;
  records_written = 0;
  sync_count = 0;
  since_sync = 0;
  answers = [];
}

submitted :
    (b d : Book) (o : Order) (r : SubmitResult)
    → Book.submit b (some o) ≡ some (Submitted.returned r d)
    → apply_command b (Command.submit o) ≡ some (from_submit (Submitted.returned r d))
unfolding apply_command
submitted b d o r e = ap (λ m. m >>= λ s. some (from_submit s)) e

five_offered :
    apply_command new_book (Command.submit sell_five)
    ≡ some (from_submit (Submitted.returned (entry_of new_book sell_five).result one_offer))
unfolding one_offer count_levels opposite sum_fills visible_qty sweep
five_offered =
    submitted new_book one_offer sell_five (entry_of new_book sell_five).result
      (submit-entered new_book sell_five new_book-BookOk sell_five-IsLive refl
        (inl (omega arith))).0

hidden_result : SubmitResult
hidden_result = (entry_of one_offer sell_hidden).result

hidden_offered :
    apply_command one_offer (Command.submit sell_hidden)
    ≡ some (from_submit (Submitted.returned hidden_result (book_after one_offer sell_hidden)))
unfolding opposite hidden_result
hidden_offered =
    submitted one_offer (book_after one_offer sell_hidden) sell_hidden hidden_result
      (submit-entered one_offer sell_hidden one_offer-BookOk sell_hidden-IsLive sell_hidden-new
        (inl sell_hidden-clean)).0

first_offered : history (Command.submit sell_five ∷ []) new_book ≡ some one_offer
unfolding history
first_offered = ap (λ m. m >>= λ a. some (applied_book new_book a)) five_offered

abbrev before_restart : Engine WriteAheadLog
before_restart = engine_with one_offer (some reopened)

-- The engine that has offered the iceberg too.
abbrev after_restart : Engine WriteAheadLog
after_restart = caught (
    mutated (from_submit (Submitted.returned hidden_result (book_after one_offer sell_hidden)))
      (record before_restart {
        log = some (left command_log (Command.submit sell_hidden ∷ []) reopened);
      }))

served_again :
    serve_all command_log (Command.submit sell_hidden ∷ []) before_restart ≡ some after_restart
unfolding serve_all serve apply mutate left append write_fully should_sync encode_record put_u32
    emit
served_again =
    ap
      (λ m.
        ((m >>= λ a. some (
            mutated a (record before_restart {
              log = some (left command_log (Command.submit sell_hidden ∷ []) reopened);
            })))
          >>= λ out. some (caught out))
        >>= λ s. some s)
      hidden_offered

both-IsStorable : All IsStorable (Command.submit sell_five ∷ Command.submit sell_hidden ∷ [])
unfolding stored_order display_size resting_price
both-IsStorable = (
  record {
    fits = (omega arith, omega arith, (omega arith, omega arith), omega arith, omega arith);
    kept = refl;
  },
  (
    record {
      fits = (omega arith, omega arith, (omega arith, omega arith), omega arith, omega arith);
      kept = refl;
    },
    tt,
  ),
)

serve_all-recover_example :
    (k : WriteAheadLog) × (after_restart.log ≡ some k)
    × (k.file ≡ encode_all 1 (Command.submit sell_five ∷ Command.submit sell_hidden ∷ []))
    × Recovered after_restart.book k.file (recover_book_only (k.file ++ []) new_book)
serve_all-recover_example =
    serve_all-recover (Command.submit sell_five ∷ []) (Command.submit sell_hidden ∷ [])
      before_restart after_restart reopened new_book [] false refl refl refl first_offered tt
      both-IsStorable (omega arith) TornTail.nothing served_again
