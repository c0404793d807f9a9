-- ===== src/ThreadSafeQueue/Fifo.antt =====
-- concurrent/thread_safe_queue.hpp: order and bound, whatever the threads do.
use multithreaded_exchange_s.ThreadSafeQueue.Monitor.{
  dequeued, popped, try_pushed, Reach, pushed, Step, enqueued, Monitor, monitor,
}
use multithreaded_exchange_s.ThreadSafeQueue.Outcome.{
  Pops, Takes, TriesPush, try_pop-Takes, pop-Pops, try_push-TriesPush, Pushes, push-Pushes,
  with_back,
}
use multithreaded_exchange_s.ThreadSafeQueue.{ThreadSafeQueue, make_queue, close}
use multithreaded_exchange_s.Prelude.{
  ℕ, ◌-◌, ◌≤◌, ◌<◌, ◌≡◌, refl, sym, ap, ◌∙◌, Bool, Option, [], ◌∷◌, ◌++◌, append_assoc, arith,
  length, length-append,
}

module _ {ℓ} {A : Type ℓ} where
  pub record IsFifo (m : Monitor A) : Type ℓ where
    pub order : m.accepted ≡ m.delivered ++ m.queue.items
    pub bound : length m.queue.items ≤ m.queue.capacity
    pub room : 0 < m.queue.capacity

  enqueued-IsFifo :
      (value : A) (m : Monitor A)
      → length m.queue.items < m.queue.capacity
      → IsFifo m
      → IsFifo (enqueued value (with_back value m.queue) m)
  enqueued-IsFifo value m h v = record {
    order =
        ap (λ xs. xs ++ value ∷ []) v.order ∙ append_assoc m.delivered m.queue.items (value ∷ []);
    bound = omega (arith, h, length-append m.queue.items (value ∷ []));
    room = v.room;
  }

  pushed-IsFifo :
      (value : A) (m : Monitor A) {r : Option (Bool × ThreadSafeQueue A)}
      → Pushes value m.queue r
      → IsFifo m
      → IsFifo (pushed value r m)
  pushed-IsFifo value m (Pushes.waits c full) v = record {
    order = v.order;
    bound = v.bound;
    room = v.room;
  }
  pushed-IsFifo value m (Pushes.refused c) v = v
  pushed-IsFifo value m (Pushes.accepts c room) v = enqueued-IsFifo value m room v

  try_pushed-IsFifo :
      (value : A) (m : Monitor A) {r : Bool × ThreadSafeQueue A}
      → TriesPush value m.queue r
      → IsFifo m
      → IsFifo (try_pushed value r m)
  try_pushed-IsFifo value m TriesPush.refused v = v
  try_pushed-IsFifo value m (TriesPush.accepts c room) v = enqueued-IsFifo value m room v

  dequeued-IsFifo :
      (m : Monitor A) {r : Option A × ThreadSafeQueue A}
      → Takes m.queue r
      → IsFifo m
      → IsFifo (dequeued r m)
  dequeued-IsFifo m (Takes.nothing e) v = v
  dequeued-IsFifo m (Takes.front x xs e) v = record {
    order = v.order ∙ (ap (λ ys. m.delivered ++ ys) e ∙ sym (append_assoc m.delivered (x ∷ []) xs));
    bound = omega (arith, v.bound, ap length e);
    room = v.room;
  }

  popped-IsFifo :
      (m : Monitor A) {r : Option (Option A × ThreadSafeQueue A)}
      → Pops m.queue r
      → IsFifo m
      → IsFifo (popped r m)
  popped-IsFifo m (Pops.waits c e) v = record { order = v.order; bound = v.bound; room = v.room }
  popped-IsFifo m (Pops.returns r t) v = dequeued-IsFifo m t v

  pub Step-IsFifo : {m n : Monitor A} → Step m n → IsFifo m → IsFifo n
  unfolding close
  Step-IsFifo {m} (Step.push_arrives value) v = pushed-IsFifo value m (push-Pushes value m.queue) v
  Step-IsFifo {m} (Step.push_resumes value h) v =
      pushed-IsFifo value (record m { pushers_woken = m.pushers_woken - 1 })
        (push-Pushes value m.queue) (record { order = v.order; bound = v.bound; room = v.room })
  Step-IsFifo {m} (Step.tries_push value) v =
      try_pushed-IsFifo value m (try_push-TriesPush value m.queue) v
  Step-IsFifo {m} Step.pop_arrives v = popped-IsFifo m (pop-Pops m.queue) v
  Step-IsFifo {m} (Step.pop_resumes h) v =
      popped-IsFifo (record m { poppers_woken = m.poppers_woken - 1 }) (pop-Pops m.queue)
        (record { order = v.order; bound = v.bound; room = v.room })
  Step-IsFifo {m} Step.tries_pop v = dequeued-IsFifo m (try_pop-Takes m.queue) v
  Step-IsFifo (Step.push_wakes h) v = record { order = v.order; bound = v.bound; room = v.room }
  Step-IsFifo (Step.pop_wakes h) v = record { order = v.order; bound = v.bound; room = v.room }
  Step-IsFifo Step.closes v = record { order = v.order; bound = v.bound; room = v.room }
  Step-IsFifo (Step.tells_one_pusher h) v = record {
    order = v.order;
    bound = v.bound;
    room = v.room;
  }
  Step-IsFifo (Step.tells_one_popper h) v = record {
    order = v.order;
    bound = v.bound;
    room = v.room;
  }
  Step-IsFifo (Step.tells_pushers h) v = record { order = v.order; bound = v.bound; room = v.room }
  Step-IsFifo (Step.tells_poppers h) v = record { order = v.order; bound = v.bound; room = v.room }

  monitor-IsFifo : (capacity : ℕ) → IsFifo (monitor {A = A} capacity)
  unfolding monitor make_queue
  monitor-IsFifo capacity = record { order = refl; bound = omega arith; room = ground arith }

  -- Whatever threads push, pop, try and close in whatever order, from a new queue: what was accepted is
  -- what was delivered followed by what is in the queue, in order and with nothing lost or repeated,
  -- and the queue never holds more than its capacity, which is positive.
  pub Reach-IsFifo : (capacity : ℕ) {m : Monitor A} → Reach (monitor capacity) m → IsFifo m
  Reach-IsFifo capacity Reach.here = monitor-IsFifo capacity
  Reach-IsFifo capacity (Reach.next r s) = Step-IsFifo s (Reach-IsFifo capacity r)
