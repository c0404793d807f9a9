-- ===== src/Queue/Count.antt =====
-- How the sums of a queue change when a node is taken out or written.
use multithreaded_exchange_s.Prelude.{ℕ, ◌+◌, ◌≡◌, List, [], ◌∷◌, ◌++◌, some, arith}
use multithreaded_exchange_s.Order.{Order, visible_qty}
use multithreaded_exchange_s.Queue.{find_node, erase_node, set_node, sum_remaining, sum_visible}

pub sum_remaining-append :
    (xs ys : List Order) → sum_remaining (xs ++ ys) ≡ sum_remaining xs + sum_remaining ys
unfolding sum_remaining
sum_remaining-append [] ys = omega arith
sum_remaining-append (x ∷ xs) ys = omega (arith, sum_remaining-append xs ys)

pub sum_visible-append :
    (xs ys : List Order) → sum_visible (xs ++ ys) ≡ sum_visible xs + sum_visible ys
unfolding sum_visible
sum_visible-append [] ys = omega arith
sum_visible-append (x ∷ xs) ys = omega (arith, sum_visible-append xs ys)

-- Taking a node out takes its quantities out of the sums.
pub record Taken (os : List Order) (id : ℕ) (o : Order) : Type 0 where
  pub remaining : sum_remaining os ≡ sum_remaining (erase_node id os) + o.remaining
  pub visible : sum_visible os ≡ sum_visible (erase_node id os) + visible_qty o

pub erase_node-Taken :
    (os : List Order) (id : ℕ) (o : Order) → find_node id os ≡ some o → Taken os id o
unfolding find_node erase_node sum_remaining sum_visible
erase_node-Taken [] id o e = absurd (cc)
erase_node-Taken (x ∷ os) id o e = ground (arith, erase_node-Taken os id o)

-- Writing a node exchanges its quantities for those of the new order.
pub record Written (os : List Order) (id : ℕ) (o n : Order) : Type 0 where
  pub remaining : sum_remaining (set_node id n os) + o.remaining ≡ sum_remaining os + n.remaining
  pub visible : sum_visible (set_node id n os) + visible_qty o ≡ sum_visible os + visible_qty n

pub set_node-Written :
    (os : List Order) (id : ℕ) (o n : Order) → find_node id os ≡ some o → Written os id o n
unfolding find_node set_node sum_remaining sum_visible
set_node-Written [] id o n e = absurd (cc)
set_node-Written (x ∷ os) id o n e = ground (arith, set_node-Written os id o n)

pub find_node-set_self :
    (os : List Order) (id : ℕ) (o n : Order)
    → find_node id os ≡ some o
    → n.id ≡ id
    → find_node id (set_node id n os) ≡ some n
unfolding find_node set_node
find_node-set_self [] id o n e h = cc
find_node-set_self (x ∷ os) id o n e h = ground (arith, find_node-set_self os id o n)

pub find_node-id : (os : List Order) (id : ℕ) (o : Order) → find_node id os ≡ some o → o.id ≡ id
unfolding find_node
find_node-id [] id o e = absurd (cc)
find_node-id (x ∷ os) id o e = ground (arith, find_node-id os id o)
