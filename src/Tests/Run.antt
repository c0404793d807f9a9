-- ===== src/Tests/Run.antt =====
-- The theorems on the engine at a run of two commands, of which the log takes one.
use multithreaded_exchange_s.Engine.Loop.{stop-serve_all, stopping_run, stopped, serve_all}
use multithreaded_exchange_s.Engine.{
  stop, publish, mutate, apply, Logged, serve, CommandLog, Engine,
}
use multithreaded_exchange_s.Order.{visible_qty}
use multithreaded_exchange_s.PriceLevel.{is_empty, extract}
use multithreaded_exchange_s.Prelude.Word.{add64, sub64, u64_mod}
use multithreaded_exchange_s.Queue.{erase_node, find_node}
use multithreaded_exchange_s.OrderBook.{
  erase_level, set_level, find_level, unindex, lookup_index, empty_side,
}
use multithreaded_exchange_s.Book
use multithreaded_exchange_s.OrderBook
use multithreaded_exchange_s.Command.{apply_command, Command, history}
use multithreaded_exchange_s.Engine.Replay.{serve_all-history, tally, taken}
use multithreaded_exchange_s.Tests.{sell_hidden, offered}
use multithreaded_exchange_s.Prelude.Int.{pos}
use multithreaded_exchange_s.Book.Types.{Book}
use multithreaded_exchange_s.Prelude.{
  ℕ, ◌+◌, ◌%◌, ◌≡◌, refl, true, false, Option, some, List, [], ◌∷◌, arith, ◌==◌, if◌then◌else◌,
}

-- A log that takes one command and then fails.
abbrev pub one_then_none : CommandLog ℕ
one_then_none = record {
  append = λ c n. if n == 0 then Logged.returned 1 1 else Logged.failed n;
  flush = λ n. (true, n);
}

abbrev pub commands : List Command
commands = Command.cancel 1 ∷ Command.cancel 2 ∷ []

abbrev pub engine_with : {L : Type 0} → Book → Option L → Engine L
engine_with b log = record {
  book = b;
  queue = record { items = commands; capacity = 4; closed = true };
  log = log;
  has_handler = false;
  published = [];
  started = true;
  running = true;
  stopping = true;
  processed = 0;
  rejected = 0;
  fills = 0;
  storage_failures = 0;
}

-- The offers without the first one.
abbrev pub one_cancelled : Book
one_cancelled = record {
  bids = empty_side;
  asks = record {
    levels =
        record {
          price = pos 101;
          orders = record sell_hidden { sequence = 2 } ∷ [];
          total_qty = 12;
          visible_qty = 4;
        }
        ∷ [];
    index = (2, record { price = pos 101; position = 2 }) ∷ [];
  };
  next_sequence = 3;
}

abbrev before_run : Engine ℕ
before_run = engine_with offered (some 0)

abbrev after_run : Engine ℕ
after_run = record (engine_with one_cancelled (some 1)) { processed = 1; storage_failures = 1 }

-- The engine before it is told to stop.
abbrev stopped_soon : Engine ℕ
stopped_soon = record before_run {
  queue = record { items = commands; capacity = 4; closed = false };
  running = true;
  stopping = false;
}

served : serve_all one_then_none commands before_run ≡ some after_run
unfolding serve_all serve apply mutate publish apply_command Book.cancel OrderBook.cancel
    lookup_index unindex find_level set_level erase_level extract find_node erase_node sub64 add64
    is_empty visible_qty
served = refl

serve_all-history_example :
    (history (taken one_then_none commands (some 0)) offered ≡ some one_cancelled)
    × (tally after_run ≡ (tally before_run + 2) % u64_mod)
serve_all-history_example = serve_all-history one_then_none commands before_run after_run served

-- The same log, which counts its flushes in hundreds.
abbrev flushing : CommandLog ℕ
flushing = record one_then_none { flush = λ n. (true, n + 100) }

stop-serve_all_example :
    stop flushing 3 stopped_soon
    ≡ stopped flushing stopped_soon.queue (serve_all flushing commands (stopping_run stopped_soon))
stop-serve_all_example = stop-serve_all flushing 3 stopped_soon refl refl (omega arith)
