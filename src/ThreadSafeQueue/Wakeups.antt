-- ===== src/ThreadSafeQueue/Wakeups.antt =====
-- concurrent/thread_safe_queue.hpp: what a sleeping thread waits for.
use multithreaded_exchange_s.ThreadSafeQueue.{ThreadSafeQueue, make_queue, close}
use multithreaded_exchange_s.ThreadSafeQueue.Monitor.{
  dequeued, popped, try_pushed, Reach, pushed, Step, Monitor, monitor,
}
use multithreaded_exchange_s.ThreadSafeQueue.Outcome.{
  Pops, Takes, TriesPush, try_pop-Takes, pop-Pops, try_push-TriesPush, Pushes, push-Pushes,
}
use multithreaded_exchange_s.Prelude.{
  ℕ, ◌+◌, ◌-◌, ◌≤◌, ◌<◌, ◌≡◌, ap, Bool, true, false, Option, [], ◌∷◌, arith, length, length-append,
}

module _ {ℓ} {A : Type ℓ} where
  -- While a producer sleeps, each free place has a woken producer or a notification to come, and a
  -- closed queue has its notify_all to come; while a consumer sleeps, the same of each item.
  pub record NoneLost (m : Monitor A) : Type 0 where
    pub places :
        m.queue.closed ≡ false
        → 0 < m.pushers_asleep
        → m.queue.capacity ≤ length m.queue.items + (m.pushers_woken + m.not_full_one)
    pub items : 0 < m.poppers_asleep → length m.queue.items ≤ m.poppers_woken + m.not_empty_one
    pub pushers_told : m.queue.closed ≡ true → 0 < m.pushers_asleep → 0 < m.not_full_all
    pub poppers_told : m.queue.closed ≡ true → 0 < m.poppers_asleep → 0 < m.not_empty_all

  pushed-NoneLost :
      (value : A) (m : Monitor A) {r : Option (Bool × ThreadSafeQueue A)}
      → Pushes value m.queue r
      → (m.queue.closed ≡ false
          → 0 < m.pushers_asleep
          → m.queue.capacity ≤ length m.queue.items + (m.pushers_woken + 1 + m.not_full_one))
      → (0 < m.poppers_asleep → length m.queue.items ≤ m.poppers_woken + m.not_empty_one)
      → (m.queue.closed ≡ true → 0 < m.pushers_asleep → 0 < m.not_full_all)
      → (m.queue.closed ≡ true → 0 < m.poppers_asleep → 0 < m.not_empty_all)
      → NoneLost (pushed value r m)
  pushed-NoneLost value m (Pushes.waits c full) a b d e = record {
    places = λ _ _. omega (arith, full);
    items = b;
    pushers_told = λ k _. absurd (cc);
    poppers_told = e;
  }
  pushed-NoneLost value m (Pushes.refused c) a b d e = record {
    places = λ k _. absurd (cc);
    items = b;
    pushers_told = d;
    poppers_told = e;
  }
  pushed-NoneLost value m (Pushes.accepts c room) a b d e = record {
    places = λ k h. omega (arith, a k h, length-append m.queue.items (value ∷ []));
    items = λ h. omega (arith, b h, length-append m.queue.items (value ∷ []));
    pushers_told = d;
    poppers_told = e;
  }

  try_pushed-NoneLost :
      (value : A) (m : Monitor A) {r : Bool × ThreadSafeQueue A}
      → TriesPush value m.queue r
      → NoneLost m
      → NoneLost (try_pushed value r m)
  try_pushed-NoneLost value m TriesPush.refused v = v
  try_pushed-NoneLost value m (TriesPush.accepts c room) v = record {
    places = λ k h. omega (arith, v.places k h, length-append m.queue.items (value ∷ []));
    items = λ h. omega (arith, v.items h, length-append m.queue.items (value ∷ []));
    pushers_told = v.pushers_told;
    poppers_told = v.poppers_told;
  }

  dequeued-NoneLost :
      (m : Monitor A) {r : Option A × ThreadSafeQueue A}
      → Takes m.queue r
      → (m.queue.closed ≡ false
          → 0 < m.pushers_asleep
          → m.queue.capacity ≤ length m.queue.items + (m.pushers_woken + m.not_full_one))
      → (0 < m.poppers_asleep → length m.queue.items ≤ m.poppers_woken + 1 + m.not_empty_one)
      → (m.queue.closed ≡ true → 0 < m.pushers_asleep → 0 < m.not_full_all)
      → (m.queue.closed ≡ true → 0 < m.poppers_asleep → 0 < m.not_empty_all)
      → NoneLost (dequeued r m)
  dequeued-NoneLost m (Takes.nothing f) a b d e = record {
    places = a;
    items = λ h. omega (arith, ap length f);
    pushers_told = d;
    poppers_told = e;
  }
  dequeued-NoneLost m (Takes.front x xs f) a b d e = record {
    places = λ k h. omega (arith, a k h, ap length f);
    items = λ h. omega (arith, b h, ap length f);
    pushers_told = d;
    poppers_told = e;
  }

  popped-NoneLost :
      (m : Monitor A) {r : Option (Option A × ThreadSafeQueue A)}
      → Pops m.queue r
      → (m.queue.closed ≡ false
          → 0 < m.pushers_asleep
          → m.queue.capacity ≤ length m.queue.items + (m.pushers_woken + m.not_full_one))
      → (0 < m.poppers_asleep → length m.queue.items ≤ m.poppers_woken + 1 + m.not_empty_one)
      → (m.queue.closed ≡ true → 0 < m.pushers_asleep → 0 < m.not_full_all)
      → (m.queue.closed ≡ true → 0 < m.poppers_asleep → 0 < m.not_empty_all)
      → NoneLost (popped r m)
  popped-NoneLost m (Pops.waits c f) a b d e = record {
    places = a;
    items = λ h. omega (arith, ap length f);
    pushers_told = d;
    poppers_told = λ k _. absurd (cc);
  }
  popped-NoneLost m (Pops.returns r t) a b d e = dequeued-NoneLost m t a b d e

  Step-NoneLost : {m n : Monitor A} → Step m n → NoneLost m → NoneLost n
  unfolding close
  Step-NoneLost {m} (Step.push_arrives value) v =
      pushed-NoneLost value m (push-Pushes value m.queue) (λ k h. omega (arith, v.places k h))
        v.items v.pushers_told v.poppers_told
  Step-NoneLost {m} (Step.push_resumes value w) v =
      pushed-NoneLost value (record m { pushers_woken = m.pushers_woken - 1 })
        (push-Pushes value m.queue) (λ k h. omega (arith, v.places k h, w)) v.items v.pushers_told
        v.poppers_told
  Step-NoneLost {m} (Step.tries_push value) v =
      try_pushed-NoneLost value m (try_push-TriesPush value m.queue) v
  Step-NoneLost {m} Step.pop_arrives v =
      popped-NoneLost m (pop-Pops m.queue) v.places (λ h. omega (arith, v.items h)) v.pushers_told
        v.poppers_told
  Step-NoneLost {m} (Step.pop_resumes w) v =
      popped-NoneLost (record m { poppers_woken = m.poppers_woken - 1 }) (pop-Pops m.queue) v.places
        (λ h. omega (arith, v.items h, w)) v.pushers_told v.poppers_told
  Step-NoneLost {m} Step.tries_pop v =
      dequeued-NoneLost m (try_pop-Takes m.queue) v.places (λ h. omega (arith, v.items h))
        v.pushers_told v.poppers_told
  Step-NoneLost {m} (Step.push_wakes w) v = record {
    places = λ k h. omega (arith, v.places k w, w);
    items = v.items;
    pushers_told = λ k h. v.pushers_told k w;
    poppers_told = v.poppers_told;
  }
  Step-NoneLost {m} (Step.pop_wakes w) v = record {
    places = v.places;
    items = λ h. omega (arith, v.items w, w);
    pushers_told = v.pushers_told;
    poppers_told = λ k h. v.poppers_told k w;
  }
  Step-NoneLost {m} Step.closes v = record {
    places = λ k _. absurd (cc);
    items = v.items;
    pushers_told = λ _ _. omega arith;
    poppers_told = λ _ _. omega arith;
  }
  Step-NoneLost {m} (Step.tells_one_pusher w) v = record {
    places = λ k h. omega (arith, v.places k (omega (arith, h)), h, w);
    items = v.items;
    pushers_told = λ k h. v.pushers_told k (omega (arith, h));
    poppers_told = v.poppers_told;
  }
  Step-NoneLost {m} (Step.tells_one_popper w) v = record {
    places = v.places;
    items = λ h. omega (arith, v.items (omega (arith, h)), h, w);
    pushers_told = v.pushers_told;
    poppers_told = λ k h. v.poppers_told k (omega (arith, h));
  }
  Step-NoneLost {m} (Step.tells_pushers w) v = record {
    places = λ k h. absurd (omega (arith, h));
    items = v.items;
    pushers_told = λ k h. absurd (omega (arith, h));
    poppers_told = v.poppers_told;
  }
  Step-NoneLost {m} (Step.tells_poppers w) v = record {
    places = v.places;
    items = λ h. absurd (omega (arith, h));
    pushers_told = v.pushers_told;
    poppers_told = λ k h. absurd (omega (arith, h));
  }

  monitor-NoneLost : (capacity : ℕ) → NoneLost (monitor {A = A} capacity)
  unfolding monitor make_queue
  monitor-NoneLost capacity = record {
    places = λ k h. absurd (omega (arith, h));
    items = λ h. absurd (omega (arith, h));
    pushers_told = λ k h. absurd (omega (arith, h));
    poppers_told = λ k h. absurd (omega (arith, h));
  }

  pub Reach-NoneLost : (capacity : ℕ) {m : Monitor A} → Reach (monitor capacity) m → NoneLost m
  Reach-NoneLost capacity Reach.here = monitor-NoneLost capacity
  Reach-NoneLost capacity (Reach.next r s) = Step-NoneLost s (Reach-NoneLost capacity r)
