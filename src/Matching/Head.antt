-- ===== src/Matching/Head.antt =====
-- The level operations of a commit, at the head of a queue and on a level with true sums.
use multithreaded_exchange_s.Prelude.Word.{add64_mod, sub64_mod, u64_mod}
use multithreaded_exchange_s.Queue.Count.{sum_visible-append, sum_remaining-append}
use multithreaded_exchange_s.Order.Lifecycle.{on_partial_fill-FillEffect, IsLive}
use multithreaded_exchange_s.Queue.{sum_visible, sum_remaining, erase_node, find_node, set_node}
use multithreaded_exchange_s.Order.{on_partial_fill, replenish, Order, visible_qty}
use multithreaded_exchange_s.Prelude.{ℕ, ◌+◌, ◌≤◌, ◌<◌, ◌≡◌, refl, some, List, [], ◌∷◌, ◌++◌, arith}
use multithreaded_exchange_s.PriceLevel.Aggregates.{IsSummed}
use multithreaded_exchange_s.Matching.{level_with}
use multithreaded_exchange_s.PriceLevel.{PriceLevel, extract, apply_fill, replenish_and_requeue}

-- A level with true sums is known by its price and its queue.
pub level_with_lem : (l m : PriceLevel) → IsSummed m → m.price ≡ l.price → m ≡ level_with l m.orders
level_with_lem l m s e = ground arith

pub find_node-head : (o : Order) (os : List Order) → find_node o.id (o ∷ os) ≡ some o
unfolding find_node
find_node-head o os = ground arith

erase_node-head : (o : Order) (os : List Order) → erase_node o.id (o ∷ os) ≡ os
unfolding erase_node
erase_node-head o os = ground arith

set_node-head : (o n : Order) (os : List Order) → set_node o.id n (o ∷ os) ≡ n ∷ os
unfolding set_node
set_node-head o n os = ground arith

module _ (l : PriceLevel) (o : Order) (os : List Order) where
  -- The head of the queue is taken out, filled, or sent to the back.
  pub extract-head :
      o.remaining < u64_mod
      → visible_qty o < u64_mod
      → extract (level_with l (o ∷ os)) o.id ≡ some (o, level_with l os)
  unfolding extract sum_remaining sum_visible
  extract-head h k = rw (
    find_node-head o os,
    erase_node-head o os,
    sub64_mod _ o.remaining (o.remaining + sum_remaining os) (sum_remaining os) refl h
        (omega arith),
    sub64_mod _ (visible_qty o) (visible_qty o + sum_visible os) (sum_visible os) refl k
        (omega arith),
  )

  pub requeue-head :
      visible_qty o ≡ 0
      → replenish_and_requeue (level_with l (o ∷ os)) o.id
        ≡ some (level_with l (os ++ replenish o ∷ []))
  unfolding replenish_and_requeue sum_remaining sum_visible replenish
  requeue-head z =
      let n = replenish o in
      let total : o.remaining + sum_remaining os ≡ sum_remaining (os ++ n ∷ []) =
        omega (arith, sum_remaining-append os (n ∷ [])) in
      let visible : sum_visible (os ++ n ∷ []) ≡ visible_qty o + sum_visible os + visible_qty n =
        omega (arith, sum_visible-append os (n ∷ []), z) in
      rw (
        find_node-head o os,
        erase_node-head o os,
        total,
        add64_mod _ (visible_qty n) (visible_qty o + sum_visible os) _ refl visible,
      )

  pub apply-head :
      (q : ℕ)
      → IsLive o
      → q ≤ visible_qty o
      → apply_fill (level_with l (o ∷ os)) o.id q ≡ some (level_with l (on_partial_fill o q ∷ os))
  unfolding apply_fill sum_remaining sum_visible
  apply-head q v h =
      let f = on_partial_fill-FillEffect o q v h in
      let n = on_partial_fill o q in
      let small : q < u64_mod = omega (arith, v.shown, v.fits, h) in
      rw (
        find_node-head o os,
        set_node-head o n os,
        sub64_mod _ q (o.remaining + sum_remaining os) (n.remaining + sum_remaining os) refl small
            (omega (arith, f.remaining)),
        sub64_mod _ q (visible_qty o + sum_visible os) (visible_qty n + sum_visible os) refl small
            (omega (arith, f.visible)),
      )
