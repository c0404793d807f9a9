-- ===== src/ThreadSafeQueue/Settled.antt =====
-- concurrent/thread_safe_queue.hpp: who sleeps when nothing is left to happen.
use multithreaded_exchange_s.ThreadSafeQueue.Wakeups.{Reach-NoneLost}
use multithreaded_exchange_s.ThreadSafeQueue.Fifo.{Reach-IsFifo}
use multithreaded_exchange_s.ThreadSafeQueue.{pop_ready, push_ready, ThreadSafeQueue}
use multithreaded_exchange_s.ThreadSafeQueue.Monitor.{Reach, Monitor, monitor}
use multithreaded_exchange_s.Prelude.{
  ℕ, ◌≤◌, ◌<◌, ◌≡◌, refl, ◌⊎◌, inl, inr, true, false, List, [], ◌∷◌, arith, ltb, ltb→lt, Bool-cases,
  length,
}

module _ {ℓ} {A : Type ℓ} where
  -- No thread is under way: none is woken, and no notification is to come.
  pub record IsSettled (m : Monitor A) : Type 0 where
    pub pushers : m.pushers_woken ≡ 0
    pub poppers : m.poppers_woken ≡ 0
    pub full_one : m.not_full_one ≡ 0
    pub full_all : m.not_full_all ≡ 0
    pub empty_one : m.not_empty_one ≡ 0
    pub empty_all : m.not_empty_all ≡ 0

  still_open :
      (m : Monitor A) (n : ℕ) → (m.queue.closed ≡ true → 0 < n) → n ≡ 0 → m.queue.closed ≡ false
  still_open m n h z = elim (Bool-cases (m.queue.closed)) [
    | inl c ↦ absurd (omega (arith, h c, z))
    | inr c ↦ c
  ]

  full-push_ready :
      (q : ThreadSafeQueue A)
      → q.closed ≡ false
      → q.capacity ≤ length q.items
      → push_ready q ≡ false
  unfolding push_ready
  full-push_ready q c full =
      let r : ltb (length q.items) q.capacity ≡ false = ground arith in rw (c, r) refl

  empty-pop_ready :
      (q : ThreadSafeQueue A) (xs : List A)
      → q.closed ≡ false
      → q.items ≡ xs
      → length xs ≡ 0
      → pop_ready q ≡ false
  unfolding pop_ready
  empty-pop_ready q [] c e z = rw (c, e) refl
  empty-pop_ready q (x ∷ xs) c e z = absurd (omega (arith, z))

  -- Whatever threads push, pop, try, close and wake in whatever order, from a new queue: when every
  -- woken thread has tested its predicate again and every notification is sent, a producer sleeps only
  -- where its predicate is false, so too a consumer, and not both at once.
  pub settled-asleep :
      (capacity : ℕ) (m : Monitor A)
      → Reach (monitor capacity) m
      → IsSettled m
      → (0 < m.pushers_asleep → push_ready m.queue ≡ false)
        × (0 < m.poppers_asleep → pop_ready m.queue ≡ false)
        × ((m.pushers_asleep ≡ 0) ⊎ (m.poppers_asleep ≡ 0))
  settled-asleep capacity m r s =
      let v = Reach-NoneLost capacity r in
      let f = Reach-IsFifo capacity r in
      let pushers_open : 0 < m.pushers_asleep → m.queue.closed ≡ false =
        λ h. still_open m m.not_full_all (λ c. v.pushers_told c h) s.full_all in
      let poppers_open : 0 < m.poppers_asleep → m.queue.closed ≡ false =
        λ h. still_open m m.not_empty_all (λ c. v.poppers_told c h) s.empty_all in
      let full : 0 < m.pushers_asleep → m.queue.capacity ≤ length m.queue.items =
        λ h. omega (arith, v.places (pushers_open h) h, s.pushers, s.full_one) in
      let empty : 0 < m.poppers_asleep → length m.queue.items ≡ 0 =
        λ h. omega (arith, v.items h, s.poppers, s.empty_one) in
      (
        λ h. full-push_ready m.queue (pushers_open h) (full h),
        λ h. empty-pop_ready m.queue m.queue.items (poppers_open h) refl (empty h),
        elim (Bool-cases (ltb 0 m.pushers_asleep)) [
          | inr z ↦ inl (ground arith)
          | inl p ↦ elim (Bool-cases (ltb 0 m.poppers_asleep)) [
            | inr z ↦ inr (ground arith)
            | inl q ↦ absurd (omega (arith, full (ltb→lt _ _ p), empty (ltb→lt _ _ q), f.room))
          ]
        ],
      )
