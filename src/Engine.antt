-- ===== src/Engine.antt =====
-- core/engine.hpp, core/engine.cpp and core/command_log.hpp: the thread that owns the book. `none` is
-- undefined behaviour of the book; the counters are unsigned and wrap.
pub mod Loop
pub mod Serves
pub mod Replay
use multithreaded_exchange_s.Command.{apply_command, Applied, Command}
use multithreaded_exchange_s.Prelude.Word.{add64}
use multithreaded_exchange_s.ThreadSafeQueue.{
  ThreadSafeQueue, make_queue, push, try_push, pop, close,
}
use multithreaded_exchange_s.Book.Types.{Book, Fill, new_book}
use multithreaded_exchange_s.Prelude.{
  ℕ, zero, suc, ◌+◌, ◌-◌, ◌*◌, ◌/◌, ◌%◌, ◌^◌, ◌≤◌, ◌<◌, min, ◌≡◌, refl, sym, ap, ap₂, subst, ◌∙◌,
  ◌≢◌, ◌↔◌, ◌⊎◌, inl, inr, Bool, true, false, not, ◌&&◌, ◌||◌, Option, none, some, List, [], ◌∷◌,
  ◌++◌, map, append-nil, append_assoc, arith, ltb, leb, ◌==◌, if◌then◌else◌, ltb→lt, lt→ltb, ==_iff,
  Bool-cases, Option-cases, length, take, drop, length-append, take-append, drop-append, All,
  All-append, All-of, All-map, ◌>>=◌, precondition,
}

-- What an append to the log does: it returns a sequence number, or throws StorageError. Either way it
-- may have changed the log.
pub data Logged (L : Type 0) : Type 0 where
  returned : ℕ → L → Logged L
  failed : L → Logged L

-- ICommandLog. `flush` says whether it succeeded.
pub record CommandLog (L : Type 0) : Type 0 where
  pub append : Command → L → Logged L
  pub flush : L → Bool × L

-- `log` is none for the null pointer; `published` is what the fill handler was called with.
pub record Engine (L : Type 0) : Type 0 where
  pub book : Book
  pub queue : ThreadSafeQueue Command
  pub log : Option L
  pub has_handler : Bool
  pub published : List Fill
  pub started : Bool
  pub running : Bool
  pub stopping : Bool
  pub processed : ℕ
  pub rejected : ℕ
  pub fills : ℕ
  pub storage_failures : ℕ

-- How Engine::apply ends.
pub data Ends : Type 0 where
  returns storage_error exchange_error : Ends

module _ {L : Type 0} where
  unfoldable pub make_engine : ℕ → Option L → Engine L
  make_engine capacity log = record {
    book = new_book;
    queue = make_queue capacity;
    log = log;
    has_handler = false;
    published = [];
    started = false;
    running = false;
    stopping = false;
    processed = 0;
    rejected = 0;
    fills = 0;
    storage_failures = 0;
  }

  unfoldable pub set_command_log : Option L → Engine L → Engine L
  set_command_log log e = record e { log = log }

  -- A handler that is not empty; `published` records its calls.
  unfoldable pub on_fill : Engine L → Engine L
  on_fill e = record e { has_handler = true }

  -- The loop over the fills of an outcome.
  unfoldable pub publish : List Fill → Engine L → Engine L
  publish [] e = e
  publish (f ∷ fs) e = publish fs (record e {
    fills = add64 e.fills 1;
    published = if e.has_handler then e.published ++ f ∷ [] else e.published;
  })

  abbrev pub count_accepted : Bool → Engine L → Engine L
  count_accepted true e = record e { processed = add64 e.processed 1 }
  count_accepted false e = record e { rejected = add64 e.rejected 1 }

  abbrev pub mutated : Applied → Engine L → Ends × Engine L
  mutated (Applied.refused x) e = (Ends.exchange_error, e)
  mutated (Applied.applied o b) e =
      (Ends.returns, count_accepted o.accepted (publish o.fills (record e { book = b })))

  -- What follows the append: applyCommand, the fills, the count.
  unfoldable pub mutate : Command → Engine L → Option (Ends × Engine L)
  mutate c e = apply_command e.book c >>= λ a. some (mutated a e)

  abbrev pub after_append : Command → Engine L → Logged L → Option (Ends × Engine L)
  after_append c e (Logged.returned sequence l) = mutate c (record e { log = some l })
  after_append c e (Logged.failed l) = some (Ends.storage_error, record e { log = some l })

  abbrev pub logged_first : CommandLog L → Command → Engine L → Option L → Option (Ends × Engine L)
  logged_first wal c e none = mutate c e
  logged_first wal c e (some l) = after_append c e (wal.append c l)

  unfoldable pub apply : CommandLog L → Command → Engine L → Option (Ends × Engine L)
  apply wal c e = logged_first wal c e e.log

  -- The catch clauses of Engine::run.
  abbrev pub caught : Ends × Engine L → Engine L
  caught (Ends.returns, e) = e
  caught (Ends.storage_error, e) = record e { storage_failures = add64 e.storage_failures 1 }
  caught (Ends.exchange_error, e) = record e { rejected = add64 e.rejected 1 }

  unfoldable pub serve : CommandLog L → Command → Engine L → Option (Engine L)
  serve wal c e = apply wal c e >>= λ out. some (caught out)

-- How a run of the loop ends: in `pop`, waiting; at its end; in undefined behaviour; or the fuel
-- given is used up.
pub data Ran (L : Type 0) : Type 0 where
  waiting finished : Engine L → Ran L
  undefined unfinished : Ran L

module _ {L : Type 0} where
  unfoldable pub run_loop : CommandLog L → ℕ → Engine L → Ran L
  run_loop wal zero e = Ran.unfinished
  run_loop wal (suc fuel) e = elim (pop e.queue) [
    | none ↦ Ran.waiting e
    | some (none, q) ↦ Ran.finished (record e { queue = q; running = false })
    | some (some c, q) ↦ elim (serve wal c (record e { queue = q })) [
      | none ↦ Ran.undefined
      | some served ↦ run_loop wal fuel served
    ]
  ]

  unfoldable pub run : CommandLog L → ℕ → Engine L → Ran L
  run wal fuel e = run_loop wal fuel (record e { running = true })

  unfoldable pub start : Engine L → Engine L
  start e = if e.started then e else record e { started = true }

  unfoldable pub submit : Command → Engine L → Option (Bool × Engine L)
  submit c e = push c e.queue >>= λ out. some (out.0, record e { queue = out.1 })

  unfoldable pub try_submit : Command → Engine L → Bool × Engine L
  try_submit c e = let out = try_push c e.queue in (out.0, record e { queue = out.1 })

  abbrev pub flushed : CommandLog L → Engine L → Option L → Engine L
  flushed wal e none = e
  flushed wal e (some l) = record e { log = some (wal.flush l).1 }

  -- What Engine::stop does once the thread has ended.
  abbrev pub joined : CommandLog L → Ran L → Ran L
  joined wal (Ran.finished e) = Ran.finished (flushed wal e e.log)
  joined wal (Ran.waiting e) = Ran.waiting e
  joined wal Ran.undefined = Ran.undefined
  joined wal Ran.unfinished = Ran.unfinished

  -- Engine::stop, with the join of the thread, which is joinable once started and drains the queue. A
  -- second call returns at once.
  unfoldable pub stop : CommandLog L → ℕ → Engine L → Ran L
  stop wal fuel e =
      let closing = record e { stopping = true; queue = close e.queue } in
      if e.stopping
      then Ran.finished e
      else joined wal (if e.started then run wal fuel closing else Ran.finished closing)
