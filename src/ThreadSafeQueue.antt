-- ===== src/ThreadSafeQueue.antt =====
-- concurrent/thread_safe_queue.hpp: the bounded queue. Each operation is the part of it that runs
-- under the mutex; `none` is a call that waits, since its predicate is false.
pub mod Monitor
pub mod Outcome
pub mod Fifo
pub mod Wakeups
pub mod Settled
use multithreaded_exchange_s.Prelude.{
  ℕ, zero, suc, ◌+◌, ◌-◌, ◌*◌, ◌/◌, ◌%◌, ◌^◌, ◌≤◌, ◌<◌, min, ◌≡◌, refl, sym, ap, ap₂, subst, ◌∙◌,
  ◌≢◌, ◌↔◌, ◌⊎◌, inl, inr, Bool, true, false, not, ◌&&◌, ◌||◌, Option, none, some, List, [], ◌∷◌,
  ◌++◌, map, append-nil, append_assoc, arith, ltb, leb, ◌==◌, if◌then◌else◌, ltb→lt, lt→ltb, ==_iff,
  Bool-cases, Option-cases, length, take, drop, length-append, take-append, drop-append, All,
  All-append, All-of, All-map, ◌>>=◌, precondition,
}

pub record ThreadSafeQueue {ℓ} (A : Type ℓ) : Type ℓ where
  pub items : List A
  pub capacity : ℕ
  pub closed : Bool

abbrev pub is_nil {ℓ} : {A : Type ℓ} → List A → Bool
is_nil [] = true
is_nil (x ∷ xs) = false

module _ {ℓ} {A : Type ℓ} where
  unfoldable pub make_queue : ℕ → ThreadSafeQueue A
  make_queue capacity = record {
    items = [];
    capacity = if capacity == 0 then 1 else capacity;
    closed = false;
  }

  -- The two predicates that the condition variables wait for.
  unfoldable pub push_ready : ThreadSafeQueue A → Bool
  push_ready q = q.closed || ltb (length q.items) q.capacity

  unfoldable pub pop_ready : ThreadSafeQueue A → Bool
  pop_ready q = q.closed || not (is_nil q.items)

  unfoldable pub push : A → ThreadSafeQueue A → Option (Bool × ThreadSafeQueue A)
  push value q =
      if push_ready q
      then (if q.closed
          then some (false, q)
          else some (true, record q { items = q.items ++ value ∷ [] }))
      else none

  unfoldable pub try_push : A → ThreadSafeQueue A → Bool × ThreadSafeQueue A
  try_push value q =
      if q.closed || not (ltb (length q.items) q.capacity)
      then (false, q)
      else (true, record q { items = q.items ++ value ∷ [] })

  -- The front and what is behind it, or the null option.
  abbrev pub take_front : ThreadSafeQueue A → List A → Option A × ThreadSafeQueue A
  take_front q [] = (none, q)
  take_front q (x ∷ xs) = (some x, record q { items = xs })

  unfoldable pub pop : ThreadSafeQueue A → Option (Option A × ThreadSafeQueue A)
  pop q = if pop_ready q then some (take_front q q.items) else none

  unfoldable pub try_pop : ThreadSafeQueue A → Option A × ThreadSafeQueue A
  try_pop q = take_front q q.items

  unfoldable pub close : ThreadSafeQueue A → ThreadSafeQueue A
  close q = record q { closed = true }
