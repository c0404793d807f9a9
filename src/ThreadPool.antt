-- ===== src/ThreadPool.antt =====
-- concurrent/thread_pool.hpp and concurrent/thread_pool.cpp: the workers around their queue. A task is a
-- callable of any type; whether it returns or throws is up to it.
pub mod Drain
use multithreaded_exchange_s.Prelude.Word.{add64}
use multithreaded_exchange_s.ThreadSafeQueue.{
  ThreadSafeQueue, close, push, pop, try_push, make_queue,
}
use multithreaded_exchange_s.Prelude.{
  ℕ, zero, suc, ◌+◌, ◌-◌, ◌*◌, ◌/◌, ◌%◌, ◌^◌, ◌≤◌, ◌<◌, min, ◌≡◌, refl, sym, ap, ap₂, subst, ◌∙◌,
  ◌≢◌, ◌↔◌, ◌⊎◌, inl, inr, Bool, true, false, not, ◌&&◌, ◌||◌, Option, none, some, List, [], ◌∷◌,
  ◌++◌, map, append-nil, append_assoc, arith, ltb, leb, ◌==◌, if◌then◌else◌, ltb→lt, lt→ltb, ==_iff,
  Bool-cases, Option-cases, length, take, drop, length-append, take-append, drop-append, All,
  All-append, All-of, All-map, ◌>>=◌, precondition,
}

pub record ThreadPool {ℓ} (A : Type ℓ) : Type ℓ where
  pub queue : ThreadSafeQueue A
  pub stopping : Bool
  pub completed : ℕ
  pub failed : ℕ
  -- The threads whose loop has not ended, the tasks that they are running, and the tasks that were
  -- accepted, in number.
  pub workers : ℕ
  pub running : List A
  pub accepted : ℕ

module _ {ℓ} {A : Type ℓ} where
  unfoldable pub make_pool : ℕ → ℕ → ThreadPool A
  make_pool threads capacity = record {
    queue = make_queue capacity;
    stopping = false;
    completed = 0;
    failed = 0;
    workers = if threads == 0 then 1 else threads;
    running = [];
    accepted = 0;
  }

  abbrev pub count_task : Bool × ThreadSafeQueue A → ThreadPool A → ThreadPool A
  count_task (true, q) p = record p { queue = q; accepted = p.accepted + 1 }
  count_task (false, q) p = record p { queue = q }

  -- ThreadPool::submit; none where it waits for room.
  unfoldable pub submit : A → ThreadPool A → Option (ThreadPool A)
  submit task p = push task p.queue >>= λ out. some (count_task out p)

  unfoldable pub try_submit : A → ThreadPool A → ThreadPool A
  try_submit task p = count_task (try_push task p.queue) p

  -- ThreadPool::stop up to the join of the workers.
  unfoldable pub stop : ThreadPool A → ThreadPool A
  stop p = if p.stopping then p else record p { stopping = true; queue = close p.queue }

  -- A worker's loop after its pop: it runs the task, or ends.
  abbrev pub take_task : Option A × ThreadSafeQueue A → ThreadPool A → ThreadPool A
  take_task (some task, q) p = record p { queue = q; running = task ∷ p.running }
  take_task (none, q) p = record p { queue = q; workers = p.workers - 1 }

  -- How a task ends that a worker was running: whether it returns, or throws.
  abbrev pub finish_task : Bool → List A → ThreadPool A → ThreadPool A
  finish_task true others p = record p { running = others; completed = add64 p.completed 1 }
  finish_task false others p = record p { running = others; failed = add64 p.failed 1 }

  -- A step of some thread. A worker pops while it runs no task.
  pub data Step (p : ThreadPool A) : ThreadPool A → Type ℓ where
    submits : (task : A) (q : ThreadPool A) → submit task p ≡ some q → Step p q
    tries : (task : A) → Step p (try_submit task p)
    stops : Step p (stop p)
    takes :
        (out : Option A × ThreadSafeQueue A)
        → length p.running < p.workers
        → pop p.queue ≡ some out
        → Step p (take_task out p)
    finishes :
        (task : A) (before after : List A) (returned : Bool)
        → p.running ≡ before ++ task ∷ after
        → Step p (finish_task returned (before ++ after) p)

  pub data Reach (p : ThreadPool A) : ThreadPool A → Type ℓ where
    here : Reach p p
    next : {q r : ThreadPool A} → Reach p q → Step q r → Reach p r
