-- ===== src/ThreadPool/Drain.antt =====
-- concurrent/thread_pool.cpp: what becomes of the tasks that a pool has accepted.
use multithreaded_exchange_s.ThreadPool.{
  count_task, finish_task, take_task, ThreadPool, make_pool, Reach, Step, stop, submit, try_submit,
}
use multithreaded_exchange_s.Prelude.Word.{u64_mod, add64}
use multithreaded_exchange_s.ThreadSafeQueue.{
  ThreadSafeQueue, close, push, pop, try_push, make_queue, is_nil, pop_ready,
}
use multithreaded_exchange_s.ThreadSafeQueue.Outcome.{
  Pushes, TriesPush, Takes, Pops, push-Pushes, pop-Pops, try_push-TriesPush, with_back,
}
use multithreaded_exchange_s.Prelude.{
  ℕ, suc, ◌+◌, ◌%◌, ◌≤◌, ◌<◌, ◌≡◌, refl, sym, ap, subst, inl, inr, Bool, true, false, Option, some,
  List, [], ◌∷◌, ◌++◌, arith, ◌==◌, if◌then◌else◌, Bool-cases, length, length-append, ◌>>=◌,
}

module _ {ℓ} {A : Type ℓ} where
  -- The tasks by number, at most one to a worker, and what a worker that has ended has seen.
  record Keeps (threads : ℕ) (p : ThreadPool A) : Type ℓ where
    counted :
        p.accepted % u64_mod
        ≡ (length p.queue.items + length p.running + p.completed + p.failed) % u64_mod
    busy : length p.running ≤ p.workers
    staff : p.workers ≤ threads
    drained : p.workers < threads → (p.queue.closed ≡ true) × (p.queue.items ≡ [])

  make_pool-Keeps :
      (threads capacity : ℕ)
      → Keeps (if threads == 0 then 1 else threads) (make_pool {A = A} threads capacity)
  unfolding make_pool make_queue
  make_pool-Keeps threads capacity = record {
    counted = omega arith;
    busy = omega arith;
    staff = omega arith;
    drained = λ h. absurd (omega (arith, h));
  }

  -- A task that is accepted goes to the back of a queue that is open.
  accepts-Keeps :
      (threads : ℕ) (task : A) (p : ThreadPool A)
      → p.queue.closed ≡ false
      → Keeps threads p
      → Keeps threads (count_task (true, with_back task p.queue) p)
  accepts-Keeps threads task p c k = record {
    counted = omega (arith, k.counted, length-append p.queue.items (task ∷ []));
    busy = k.busy;
    staff = k.staff;
    drained = λ h. absurd (cc ((k.drained h).0, c));
  }

  submit-Keeps :
      (threads : ℕ) (task : A) (p q : ThreadPool A) (o : Option (Bool × ThreadSafeQueue A))
      → Pushes task p.queue o
      → (o >>= λ out. some (count_task out p)) ≡ some q
      → Keeps threads p
      → Keeps threads q
  submit-Keeps threads task p q _ (Pushes.waits c f) e k = absurd (cc (e))
  submit-Keeps threads task p q _ (Pushes.refused c) e k =
      let same : p ≡ q = cc (e) in subst (Keeps threads) same k
  submit-Keeps threads task p q _ (Pushes.accepts c f) e k =
      let same : count_task (true, with_back task p.queue) p ≡ q = cc (e) in
      subst (Keeps threads) same (accepts-Keeps threads task p c k)

  try_submit-Keeps :
      (threads : ℕ) (task : A) (p : ThreadPool A) (o : Bool × ThreadSafeQueue A)
      → TriesPush task p.queue o
      → Keeps threads p
      → Keeps threads (count_task o p)
  try_submit-Keeps threads task p _ TriesPush.refused k = k
  try_submit-Keeps threads task p _ (TriesPush.accepts c f) k = accepts-Keeps threads task p c k

  stop-Keeps : (threads : ℕ) (p : ThreadPool A) → Keeps threads p → Keeps threads (stop p)
  unfolding stop close
  stop-Keeps threads p k = elim (Bool-cases (p.stopping)) [
    | inl s ↦ simp s k
    | inr s ↦
        let closing : Keeps threads (record p { stopping = true; queue = close p.queue }) = record {
          counted = k.counted;
          busy = k.busy;
          staff = k.staff;
          drained = λ h. (refl, (k.drained h).1);
        } in
        subst
          (λ b.
            Keeps threads (if b then p else record p { stopping = true; queue = close p.queue }))
          (sym s) closing
  ]

  ready-closed : (q : ThreadSafeQueue A) → pop_ready q ≡ true → q.items ≡ [] → q.closed ≡ true
  unfolding pop_ready
  ready-closed q r e = elim (Bool-cases (q.closed)) [
    | inl c ↦ c
    | inr c ↦ absurd (cc (ap is_nil e, r, c))
  ]

  Takes-Keeps :
      (threads : ℕ) (p : ThreadPool A) (out : Option A × ThreadSafeQueue A)
      → length p.running < p.workers
      → pop_ready p.queue ≡ true
      → Takes p.queue out
      → Keeps threads p
      → Keeps threads (take_task out p)
  Takes-Keeps threads p _ h r (Takes.nothing e) k = record {
    counted = k.counted;
    busy = omega (arith, h);
    staff = omega (arith, k.staff);
    drained = λ w. (ready-closed p.queue r e, e);
  }
  Takes-Keeps threads p _ h r (Takes.front x xs e) k = record {
    counted = omega (arith, k.counted, ap length e);
    busy = omega (arith, h);
    staff = k.staff;
    drained = λ w. absurd (cc ((k.drained w).1, e));
  }

  finished_size :
      (running : List A) (task : A) (before after : List A)
      → running ≡ before ++ task ∷ after
      → length running ≡ suc (length (before ++ after))
  finished_size running task before after e =
      omega (arith, ap length e, length-append before (task ∷ after), length-append before after)

  finishes-Keeps :
      (threads : ℕ) (p : ThreadPool A) (task : A) (before after : List A) (returned : Bool)
      → p.running ≡ before ++ task ∷ after
      → Keeps threads p
      → Keeps threads (finish_task returned (before ++ after) p)
  unfolding add64
  finishes-Keeps threads p task before after true e k =
      let size = finished_size p.running task before after e in
      record {
        counted = omega (arith, k.counted, size);
        busy = omega (arith, k.busy, size);
        staff = k.staff;
        drained = k.drained;
      }
  finishes-Keeps threads p task before after false e k =
      let size = finished_size p.running task before after e in
      record {
        counted = omega (arith, k.counted, size);
        busy = omega (arith, k.busy, size);
        staff = k.staff;
        drained = k.drained;
      }

  popped-Keeps :
      (threads : ℕ) (p : ThreadPool A) (out : Option A × ThreadSafeQueue A)
      (o : Option (Option A × ThreadSafeQueue A))
      → length p.running < p.workers
      → Pops p.queue o
      → o ≡ some out
      → Keeps threads p
      → Keeps threads (take_task out p)
  popped-Keeps threads p out _ h (Pops.waits c i) e k = absurd (cc (e))
  popped-Keeps threads p out _ h (Pops.returns {out = found} r t) e k =
      let same : found ≡ out = cc (e) in
      Takes-Keeps threads p out h r (subst (Takes p.queue) same t) k

  Step-Keeps :
      (threads : ℕ) (p : ThreadPool A) {q : ThreadPool A}
      → Step p q
      → Keeps threads p
      → Keeps threads q
  unfolding submit try_submit
  Step-Keeps threads p (Step.submits task q e) k =
      submit-Keeps threads task p q (push task p.queue) (push-Pushes task p.queue) e k
  Step-Keeps threads p (Step.tries task) k =
      try_submit-Keeps threads task p (try_push task p.queue) (try_push-TriesPush task p.queue) k
  Step-Keeps threads p Step.stops k = stop-Keeps threads p k
  Step-Keeps threads p (Step.takes out h e) k =
      popped-Keeps threads p out (pop p.queue) h (pop-Pops p.queue) e k
  Step-Keeps threads p (Step.finishes task before after returned e) k =
      finishes-Keeps threads p task before after returned e k

  Reach-Keeps : (threads : ℕ) {p q : ThreadPool A} → Reach p q → Keeps threads p → Keeps threads q
  Reach-Keeps threads Reach.here k = k
  Reach-Keeps threads (Reach.next {q = m} r s) k = Step-Keeps threads m s (Reach-Keeps threads r k)

  -- However the threads of a new pool interleave: the accepted tasks are those that are queued, that are
  -- running, and that have returned or thrown as the two counters say, which wrap at 2 ^ 64. Once every
  -- worker has ended, the queue is closed, and no task is queued or running any more.
  pub joined-drained :
      (threads capacity : ℕ) (p : ThreadPool A)
      → Reach (make_pool threads capacity) p
      → (p.accepted % u64_mod
          ≡ (length p.queue.items + length p.running + p.completed + p.failed) % u64_mod)
        × (p.workers ≡ 0
            → (p.queue.closed ≡ true)
              × (length p.queue.items + length p.running ≡ 0)
              × (p.accepted % u64_mod ≡ (p.completed + p.failed) % u64_mod))
  joined-drained threads capacity p r =
      let k =
        Reach-Keeps (if threads == 0 then 1 else threads) r (make_pool-Keeps threads capacity) in
      (
        k.counted,
        λ z.
            let some_staff : 0 < (if threads == 0 then 1 else threads) = ground arith in
            let d = k.drained (omega (arith, z, some_staff)) in
            let none_left : length p.queue.items + length p.running ≡ 0 =
              omega (arith, ap length d.1, k.busy, z) in
            (d.0, none_left, omega (arith, k.counted, none_left)),
      )
