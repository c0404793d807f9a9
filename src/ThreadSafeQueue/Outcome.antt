-- ===== src/ThreadSafeQueue/Outcome.antt =====
-- The outcomes of the operations of concurrent/thread_safe_queue.hpp, each with what it shows.
use multithreaded_exchange_s.ThreadSafeQueue.{
  is_nil, pop_ready, push_ready, take_front, ThreadSafeQueue, pop, push, try_pop, try_push,
}
use multithreaded_exchange_s.Prelude.{
  ◌≤◌, ◌<◌, ◌≡◌, refl, sym, subst, inl, inr, Bool, true, false, not, ◌||◌, Option, none, some, List,
  [], ◌∷◌, ◌++◌, arith, ltb, ltb→lt, Bool-cases, length,
}

module _ {ℓ} {A : Type ℓ} where
  abbrev pub with_back : A → ThreadSafeQueue A → ThreadSafeQueue A
  with_back value q = record q { items = q.items ++ value ∷ [] }

  pub data Pushes (value : A) (q : ThreadSafeQueue A)
      : Option (Bool × ThreadSafeQueue A) → Type ℓ where
    waits : q.closed ≡ false → q.capacity ≤ length q.items → Pushes value q none
    refused : q.closed ≡ true → Pushes value q (some (false, q))
    accepts :
        q.closed ≡ false
        → length q.items < q.capacity
        → Pushes value q (some (true, with_back value q))

  pub push-Pushes : (value : A) (q : ThreadSafeQueue A) → Pushes value q (push value q)
  unfolding push push_ready
  push-Pushes value q = elim (Bool-cases (q.closed)) [
    | inl c ↦
        let e : push value q ≡ some (false, q) = rw (c, push) refl in
        subst (Pushes value q) (sym e) (refused c)
    | inr c ↦ elim (Bool-cases (ltb (length q.items) q.capacity)) [
      | inl r ↦
          let e : push value q ≡ some (true, with_back value q) = rw (c, r, push) refl in
          subst (Pushes value q) (sym e) (accepts c (ltb→lt _ _ r))
      | inr r ↦
          let e : push value q ≡ none = rw (c, r, push) refl in
          subst (Pushes value q) (sym e) (waits c (ground arith))
    ]
  ]

  pub data TriesPush (value : A) (q : ThreadSafeQueue A) : Bool × ThreadSafeQueue A → Type ℓ where
    refused : TriesPush value q (false, q)
    accepts :
        q.closed ≡ false → length q.items < q.capacity → TriesPush value q (true, with_back value q)

  pub try_push-TriesPush :
      (value : A) (q : ThreadSafeQueue A) → TriesPush value q (try_push value q)
  unfolding try_push
  try_push-TriesPush value q = elim (Bool-cases (q.closed)) [
    | inl c ↦
        let e : try_push value q ≡ (false, q) = rw (c, try_push) refl in
        subst (TriesPush value q) (sym e) refused
    | inr c ↦ elim (Bool-cases (ltb (length q.items) q.capacity)) [
      | inl r ↦
          let e : try_push value q ≡ (true, with_back value q) = rw (c, r, try_push) refl in
          subst (TriesPush value q) (sym e) (accepts c (ltb→lt _ _ r))
      | inr r ↦
          let e : try_push value q ≡ (false, q) = rw (c, r, try_push) refl in
          subst (TriesPush value q) (sym e) refused
    ]
  ]

  -- What is taken: nothing of an empty queue, or the front.
  pub data Takes (q : ThreadSafeQueue A) : Option A × ThreadSafeQueue A → Type ℓ where
    nothing : q.items ≡ [] → Takes q (none, q)
    front : (x : A) (xs : List A) → q.items ≡ x ∷ xs → Takes q (some x, record q { items = xs })

  take_front-Takes :
      (q : ThreadSafeQueue A) (xs : List A) → q.items ≡ xs → Takes q (take_front q xs)
  take_front-Takes q [] e = nothing e
  take_front-Takes q (x ∷ xs) e = front x xs e

  pub try_pop-Takes : (q : ThreadSafeQueue A) → Takes q (try_pop q)
  unfolding try_pop
  try_pop-Takes q = take_front-Takes q q.items refl

  pub data Pops (q : ThreadSafeQueue A) : Option (Option A × ThreadSafeQueue A) → Type ℓ where
    waits : q.closed ≡ false → q.items ≡ [] → Pops q none
    returns :
        {out : Option A × ThreadSafeQueue A} → pop_ready q ≡ true → Takes q out → Pops q (some out)

  pop_waits :
      (q : ThreadSafeQueue A) (xs : List A)
      → q.items ≡ xs
      → (q.closed || not (is_nil xs)) ≡ false
      → (q.closed ≡ false) × (q.items ≡ [])
  pop_waits q [] e h = elim (Bool-cases (q.closed)) [ inl c ↦ absurd (cc) | inr c ↦ (c, e) ]
  pop_waits q (x ∷ xs) e h = elim (Bool-cases (q.closed)) [
    | inl c ↦ absurd (cc)
    | inr c ↦ absurd (cc)
  ]

  pub pop-Pops : (q : ThreadSafeQueue A) → Pops q (pop q)
  unfolding pop
  pop-Pops q = elim (Bool-cases (pop_ready q)) [
    | inl r ↦
        let e : pop q ≡ some (take_front q q.items) = rw (r, pop) refl in
        subst (Pops q) (sym e) (returns r (take_front-Takes q q.items refl))
    | inr r ↦
        let e : pop q ≡ none = rw (r, pop) refl in
        let w = pop_waits q q.items refl (unfold pop_ready in r) in
        subst (Pops q) (sym e) (waits w.0 w.1)
  ]
