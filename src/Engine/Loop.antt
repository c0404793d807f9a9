-- ===== src/Engine/Loop.antt =====
-- Engine::run of core/engine.cpp: the loop over a queue that is closed.
use multithreaded_exchange_s.Engine.{
  joined, flushed, run, stop, run_loop, logged_first, count_accepted, Ran, after_append, caught,
  mutated, Engine, Logged, apply, CommandLog, mutate, publish, serve,
}
use multithreaded_exchange_s.ThreadSafeQueue.{close, take_front, pop_ready, pop, ThreadSafeQueue}
use multithreaded_exchange_s.Command.{apply_command, Command, Applied}
use multithreaded_exchange_s.Book.Types.{Fill}
use multithreaded_exchange_s.Prelude.{
  ℕ, zero, suc, ◌<◌, ◌≡◌, refl, sym, ap, ◌∙◌, inl, inr, true, false, Option, none, some, List, [],
  ◌∷◌, arith, if◌then◌else◌, Bool-cases, length, ◌>>=◌,
}

pop_closed :
    (q : ThreadSafeQueue Command) (xs : List Command)
    → q.closed ≡ true
    → pop (record q { items = xs }) ≡ some (take_front (record q { items = xs }) xs)
unfolding pop pop_ready
pop_closed q xs c = rw (c, pop) refl

module _ {L : Type 0} where
  -- The commands served one after the other.
  unfoldable pub serve_all : CommandLog L → List Command → Engine L → Option (Engine L)
  serve_all wal [] e = some e
  serve_all wal (c ∷ cs) e = serve wal c e >>= λ s. serve_all wal cs s

  -- The engine whose queue is empty and whose loop has ended.
  abbrev pub ended : ThreadSafeQueue Command → Option (Engine L) → Ran L
  ended q none = Ran.undefined
  ended q (some e) = Ran.finished (record e { queue = record q { items = [] }; running = false })

  publish-queue :
      (fs : List Fill) (q : ThreadSafeQueue Command) (e : Engine L)
      → publish fs (record e { queue = q }) ≡ record (publish fs e) { queue = q }
  unfolding publish
  publish-queue [] q e = refl
  publish-queue (f ∷ fs) q e = publish-queue fs q _

  caught-queue :
      (a : Applied) (q : ThreadSafeQueue Command) (e : Engine L)
      → caught (mutated a (record e { queue = q })) ≡ record (caught (mutated a e)) { queue = q }
  caught-queue (Applied.refused x) q e = refl
  caught-queue (Applied.applied o b) q e = elim (Bool-cases (o.accepted)) [
    | inl k ↦
        simp k (ap (λ s. count_accepted true s) (publish-queue o.fills q (record e { book = b })))
    | inr k ↦
        simp k (ap (λ s. count_accepted false s) (publish-queue o.fills q (record e { book = b })))
  ]

  abbrev with_queue : ThreadSafeQueue Command → Option (Engine L) → Option (Engine L)
  with_queue q none = none
  with_queue q (some e) = some (record e { queue = q })

  mutate-queue :
      (a : Option Applied) (q : ThreadSafeQueue Command) (e : Engine L)
      → ((a >>= λ x. some (mutated x (record e { queue = q }))) >>= λ out. some (caught out))
        ≡ with_queue q ((a >>= λ x. some (mutated x e)) >>= λ out. some (caught out))
  mutate-queue none q e = refl
  mutate-queue (some a) q e = ap some (caught-queue a q e)

  append-queue :
      (c : Command) (r : Logged L) (q : ThreadSafeQueue Command) (e : Engine L)
      → (after_append c (record e { queue = q }) r >>= λ out. some (caught out))
        ≡ with_queue q (after_append c e r >>= λ out. some (caught out))
  unfolding mutate
  append-queue c (Logged.returned s l) q e =
      mutate-queue (apply_command e.book c) q (record e { log = some l })
  append-queue c (Logged.failed l) q e = refl

  log-queue :
      (wal : CommandLog L) (c : Command) (l : Option L) (q : ThreadSafeQueue Command) (e : Engine L)
      → (logged_first wal c (record e { queue = q }) l >>= λ out. some (caught out))
        ≡ with_queue q (logged_first wal c e l >>= λ out. some (caught out))
  unfolding mutate
  log-queue wal c none q e = mutate-queue (apply_command e.book c) q e
  log-queue wal c (some l) q e = append-queue c (wal.append c l) q e

  -- Serving a command neither reads nor changes the queue.
  pub serve-queue :
      (wal : CommandLog L) (c : Command) (q : ThreadSafeQueue Command) (e : Engine L)
      → serve wal c (record e { queue = q }) ≡ with_queue q (serve wal c e)
  unfolding serve apply
  serve-queue wal c q e = log-queue wal c e.log q e

  bind-with_queue :
      (q : ThreadSafeQueue Command) (s : Option (Engine L)) (f : Engine L → Option (Engine L))
      → ((e : Engine L) → f (record e { queue = q }) ≡ with_queue q (f e))
      → (with_queue q s >>= f) ≡ with_queue q (s >>= f)
  bind-with_queue q none f h = refl
  bind-with_queue q (some e) f h = h e

  serve_all-queue :
      (wal : CommandLog L) (cs : List Command) (q : ThreadSafeQueue Command) (e : Engine L)
      → serve_all wal cs (record e { queue = q }) ≡ with_queue q (serve_all wal cs e)
  unfolding serve_all
  serve_all-queue wal [] q e = refl
  serve_all-queue wal (c ∷ cs) q e =
      ap (λ s. s >>= serve_all wal cs) (serve-queue wal c q e)
      ∙ bind-with_queue q (serve wal c e) (serve_all wal cs) (serve_all-queue wal cs q)

  same_end :
      (q : ThreadSafeQueue Command) (xs : List Command) (s : Option (Engine L))
      → ended q s ≡ ended (record q { items = xs }) s
  same_end q xs none = refl
  same_end q xs (some e) = refl

  abbrev after_serve : CommandLog L → ℕ → Option (Engine L) → Ran L
  after_serve wal fuel s = elim s [ none ↦ Ran.undefined | some served ↦ run_loop wal fuel served ]

  abbrev after_pop :
      CommandLog L → ℕ → Engine L → Option (Option Command × ThreadSafeQueue Command) → Ran L
  after_pop wal fuel e out = elim out [
    | none ↦ Ran.waiting e
    | some (none, q) ↦ Ran.finished (record e { queue = q; running = false })
    | some (some c, q) ↦ after_serve wal fuel (serve wal c (record e { queue = q }))
  ]

  served_then :
      (wal : CommandLog L) (fuel : ℕ) (q : ThreadSafeQueue Command) (cs : List Command)
      (s : Option (Engine L))
      → ((e : Engine L) → run_loop wal fuel (record e { queue = q }) ≡ ended q (serve_all wal cs e))
      → after_serve wal fuel (with_queue q s) ≡ ended q (s >>= serve_all wal cs)
  served_then wal fuel q cs none h = refl
  served_then wal fuel q cs (some e) h = h e

  run_loop-items :
      (wal : CommandLog L) (fuel : ℕ) (xs : List Command) (q : ThreadSafeQueue Command)
      (e : Engine L)
      → q.closed ≡ true
      → length xs < fuel
      → run_loop wal fuel (record e { queue = record q { items = xs } })
        ≡ ended q (serve_all wal xs e)
  unfolding run_loop serve_all
  run_loop-items wal zero xs q e c h = absurd (omega (arith, h))
  run_loop-items wal (suc fuel) [] q e c h =
      ap (after_pop wal fuel (record e { queue = record q { items = [] } })) (pop_closed q [] c)
  run_loop-items wal (suc fuel) (x ∷ xs) q e c h =
      let left = record q { items = xs } in
      ap (after_pop wal fuel (record e { queue = record q { items = x ∷ xs } }))
        (pop_closed q (x ∷ xs) c)
      ∙ (ap (after_serve wal fuel) (serve-queue wal x left e)
          ∙ (served_then wal fuel left xs (serve wal x e) (λ s.
                run_loop-items wal fuel xs q s c (omega (arith, h))
                ∙ same_end q xs (serve_all wal xs s))
              ∙ sym (same_end q xs (serve wal x e >>= serve_all wal xs))))

  -- On a closed queue the loop ends, given one round more than the queue has commands: it has served
  -- them all, in order, and the queue is empty; or one of them has run into undefined behaviour.
  pub run_loop-serve_all :
      (wal : CommandLog L) (fuel : ℕ) (e : Engine L)
      → e.queue.closed ≡ true
      → length e.queue.items < fuel
      → run_loop wal fuel e ≡ ended e.queue (serve_all wal e.queue.items e)
  run_loop-serve_all wal fuel e c h = run_loop-items wal fuel e.queue.items e.queue e c h

  -- The engine that the thread runs on once `stop` has closed the queue.
  abbrev pub stopping_run : Engine L → Engine L
  stopping_run e = record e { stopping = true; queue = close e.queue; running = true }

  -- What the flush makes of a log that is there.
  abbrev log_flushed : CommandLog L → Option L → Option L
  log_flushed wal none = none
  log_flushed wal (some l) = some (wal.flush l).1

  -- The end of a stop, by the engine that has served the queue; `none` is undefined behaviour.
  abbrev pub stopped : CommandLog L → ThreadSafeQueue Command → Option (Engine L) → Ran L
  stopped wal q none = Ran.undefined
  stopped wal q (some s) = Ran.finished (record s {
    queue = record { items = []; capacity = q.capacity; closed = true };
    log = log_flushed wal s.log;
    running = false;
  })

  joined-stopped :
      (wal : CommandLog L) (q : ThreadSafeQueue Command) (s : Option (Engine L))
      → joined wal (ended (close q) s) ≡ stopped wal q s
  unfolding close
  joined-stopped wal q none = refl
  joined-stopped wal q (some s) =
      flushed-log (record s { queue = record (close q) { items = [] }; running = false }) s.log refl
    where
      flushed-log :
          (e : Engine L) (l : Option L)
          → e.log ≡ l
          → Ran.finished (flushed wal e l) ≡ Ran.finished (record e { log = log_flushed wal l })
      flushed-log e none same = ap (λ x. Ran.finished (record e { log = x })) same
      flushed-log e (some l) same = refl

  -- Stopping a started engine ends, given one round more than the queue has commands. It has served every
  -- command that was queued, in order, and then flushed the log, where there is one: the engine is the one
  -- that these commands lead to, with an empty and closed queue, the flushed log and no run under way; or
  -- one of the commands has run into undefined behaviour.
  pub stop-serve_all :
      (wal : CommandLog L) (fuel : ℕ) (e : Engine L)
      → e.started ≡ true
      → e.stopping ≡ false
      → length e.queue.items < fuel
      → stop wal fuel e ≡ stopped wal e.queue (serve_all wal e.queue.items (stopping_run e))
  unfolding stop run close
  stop-serve_all wal fuel e s t h =
      let closing = record e { stopping = true; queue = close e.queue } in
      ap
        (λ b.
          if b
          then Ran.finished e
          else joined wal (if e.started then run wal fuel closing else Ran.finished closing))
        t
      ∙ (ap (λ b. joined wal (if b then run wal fuel closing else Ran.finished closing)) s
          ∙ (ap (joined wal) (run_loop-serve_all wal fuel (stopping_run e) refl h)
              ∙ joined-stopped wal e.queue (serve_all wal e.queue.items (stopping_run e))))
