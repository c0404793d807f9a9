-- ===== src/Queue.antt =====
-- The nodes of a `std::list<std::unique_ptr<Order>>`. Its iterators are stable and each names one
-- node, so an iterator is the id of the order that its node holds.
pub mod Count
pub mod Ids
use multithreaded_exchange_s.Prelude.{
  ℕ, List, [], ◌∷◌, Option, none, some, ◌==◌, if◌then◌else◌, ◌%◌, ◌+◌,
}
use multithreaded_exchange_s.Order.{Order, visible_qty}

unfoldable pub find_node : ℕ → List Order → Option Order
find_node id [] = none
find_node id (o ∷ os) = if o.id == id then some o else find_node id os

unfoldable pub erase_node : ℕ → List Order → List Order
erase_node id [] = []
erase_node id (o ∷ os) = if o.id == id then os else o ∷ erase_node id os

-- A write through the iterator.
unfoldable pub set_node : ℕ → Order → List Order → List Order
set_node id n [] = []
set_node id n (o ∷ os) = if o.id == id then n ∷ os else o ∷ set_node id n os

-- The sums that a price level caches.
unfoldable pub sum_remaining : List Order → ℕ
sum_remaining [] = 0
sum_remaining (o ∷ os) = o.remaining + sum_remaining os

unfoldable pub sum_visible : List Order → ℕ
sum_visible [] = 0
sum_visible (o ∷ os) = visible_qty o + sum_visible os
