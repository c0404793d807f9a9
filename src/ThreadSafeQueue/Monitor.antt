-- ===== src/ThreadSafeQueue/Monitor.antt =====
-- The threads around the queue of concurrent/thread_safe_queue.hpp: how many wait on each condition
-- variable, how many were woken and have not tested their predicate again, and the notifications
-- that a thread still has to send after it has released the mutex.
use multithreaded_exchange_s.ThreadSafeQueue.{
  close, try_pop, pop, try_push, ThreadSafeQueue, make_queue, push,
}
use multithreaded_exchange_s.Prelude.{
  ℕ, ◌+◌, ◌-◌, ◌<◌, min, Bool, true, false, Option, none, some, List, [], ◌∷◌, ◌++◌,
}

pub record Monitor {ℓ} (A : Type ℓ) : Type ℓ where
  pub queue : ThreadSafeQueue A
  -- What producers were told is enqueued, and what consumers were given, in order.
  pub accepted : List A
  pub delivered : List A
  -- Of notFull_: its waiters, the woken ones, calls of notify_one and of notify_all to come.
  pub pushers_asleep : ℕ
  pub pushers_woken : ℕ
  pub not_full_one : ℕ
  pub not_full_all : ℕ
  -- The same of notEmpty_.
  pub poppers_asleep : ℕ
  pub poppers_woken : ℕ
  pub not_empty_one : ℕ
  pub not_empty_all : ℕ

module _ {ℓ} {A : Type ℓ} where
  unfoldable pub monitor : ℕ → Monitor A
  monitor capacity = record {
    queue = make_queue capacity;
    accepted = [];
    delivered = [];
    pushers_asleep = 0;
    pushers_woken = 0;
    not_full_one = 0;
    not_full_all = 0;
    poppers_asleep = 0;
    poppers_woken = 0;
    not_empty_one = 0;
    not_empty_all = 0;
  }

  abbrev pub enqueued : A → ThreadSafeQueue A → Monitor A → Monitor A
  enqueued value q m = record m {
    queue = q;
    accepted = m.accepted ++ value ∷ [];
    not_empty_one = m.not_empty_one + 1;
  }

  abbrev pub dequeued : Option A × ThreadSafeQueue A → Monitor A → Monitor A
  dequeued (none, q) m = m
  dequeued (some value, q) m = record m {
    queue = q;
    delivered = m.delivered ++ value ∷ [];
    not_full_one = m.not_full_one + 1;
  }

  abbrev pub pushed : A → Option (Bool × ThreadSafeQueue A) → Monitor A → Monitor A
  pushed value none m = record m { pushers_asleep = m.pushers_asleep + 1 }
  pushed value (some (false, q)) m = m
  pushed value (some (true, q)) m = enqueued value q m

  abbrev pub try_pushed : A → Bool × ThreadSafeQueue A → Monitor A → Monitor A
  try_pushed value (false, q) m = m
  try_pushed value (true, q) m = enqueued value q m

  abbrev pub popped : Option (Option A × ThreadSafeQueue A) → Monitor A → Monitor A
  popped none m = record m { poppers_asleep = m.poppers_asleep + 1 }
  popped (some out) m = dequeued out m

  -- A step of some thread. `push` and `pop` test their predicate on arrival, and again once woken;
  -- a waiter may wake for no reason.
  pub data Step (m : Monitor A) : Monitor A → Type ℓ where
    push_arrives : (value : A) → Step m (pushed value (push value m.queue) m)
    push_resumes :
        (value : A)
        → 0 < m.pushers_woken
        → Step m
            (pushed value (push value m.queue) (record m { pushers_woken = m.pushers_woken - 1 }))
    push_wakes :
        0 < m.pushers_asleep
        → Step m (record m {
          pushers_asleep = m.pushers_asleep - 1;
          pushers_woken = m.pushers_woken + 1;
        })
    tries_push : (value : A) → Step m (try_pushed value (try_push value m.queue) m)
    pop_arrives : Step m (popped (pop m.queue) m)
    pop_resumes :
        0 < m.poppers_woken
        → Step m (popped (pop m.queue) (record m { poppers_woken = m.poppers_woken - 1 }))
    pop_wakes :
        0 < m.poppers_asleep
        → Step m (record m {
          poppers_asleep = m.poppers_asleep - 1;
          poppers_woken = m.poppers_woken + 1;
        })
    tries_pop : Step m (dequeued (try_pop m.queue) m)
    closes : Step m (record m {
      queue = close m.queue;
      not_empty_all = m.not_empty_all + 1;
      not_full_all = m.not_full_all + 1;
    })
    tells_one_pusher :
        0 < m.not_full_one
        → Step m (record m {
          not_full_one = m.not_full_one - 1;
          pushers_asleep = m.pushers_asleep - 1;
          pushers_woken = m.pushers_woken + min 1 m.pushers_asleep;
        })
    tells_one_popper :
        0 < m.not_empty_one
        → Step m (record m {
          not_empty_one = m.not_empty_one - 1;
          poppers_asleep = m.poppers_asleep - 1;
          poppers_woken = m.poppers_woken + min 1 m.poppers_asleep;
        })
    tells_pushers :
        0 < m.not_full_all
        → Step m (record m {
          not_full_all = m.not_full_all - 1;
          pushers_asleep = 0;
          pushers_woken = m.pushers_woken + m.pushers_asleep;
        })
    tells_poppers :
        0 < m.not_empty_all
        → Step m (record m {
          not_empty_all = m.not_empty_all - 1;
          poppers_asleep = 0;
          poppers_woken = m.poppers_woken + m.poppers_asleep;
        })

  pub data Reach (m : Monitor A) : Monitor A → Type ℓ where
    here : Reach m m
    next : {n o : Monitor A} → Reach m n → Step n o → Reach m o
