-- ===== src/PriceLevel.antt =====
-- core/price_level.hpp and core/price_level.cpp: the FIFO queue of one price with its cached sums.
-- The sums are unsigned 64-bit, so they wrap. A dangling iterator is `none`.
pub mod Aggregates
use multithreaded_exchange_s.Prelude.{
  ℕ, Bool, true, false, List, [], ◌∷◌, ◌++◌, Option, none, some, ◌>>=◌,
}
use multithreaded_exchange_s.Prelude.Lists.{length}
use multithreaded_exchange_s.Prelude.Int.{ℤ}
use multithreaded_exchange_s.Prelude.Word.{add64, sub64}
use multithreaded_exchange_s.Order.{Order, visible_qty, on_partial_fill, replenish, reduce_to}
use multithreaded_exchange_s.Queue.{find_node, erase_node, set_node}

pub record PriceLevel : Type 0 where
  pub price : ℤ
  pub orders : List Order
  pub total_qty : ℕ
  pub visible_qty : ℕ

unfoldable pub make_level : ℤ → PriceLevel
make_level p = record { price = p; orders = []; total_qty = 0; visible_qty = 0 }

abbrev pub is_nil : List Order → Bool
is_nil [] = true
is_nil (o ∷ os) = false

unfoldable pub is_empty : PriceLevel → Bool
is_empty l = is_nil l.orders

unfoldable pub order_count : PriceLevel → ℕ
order_count l = length l.orders

-- The iterator to the new node is the order's id.
unfoldable pub enqueue : PriceLevel → Order → PriceLevel
enqueue l o = record l {
  orders = l.orders ++ o ∷ [];
  total_qty = add64 l.total_qty o.remaining;
  visible_qty = add64 l.visible_qty (visible_qty o);
}

unfoldable pub extract : PriceLevel → ℕ → Option (Order × PriceLevel)
extract l position = do
  o ← find_node position l.orders
  some (
    o,
    record l {
      orders = erase_node position l.orders;
      total_qty = sub64 l.total_qty o.remaining;
      visible_qty = sub64 l.visible_qty (visible_qty o);
    },
  )

unfoldable pub apply_fill : PriceLevel → ℕ → ℕ → Option PriceLevel
apply_fill l position qty = do
  o ← find_node position l.orders
  some (record l {
    orders = set_node position (on_partial_fill o qty) l.orders;
    total_qty = sub64 l.total_qty qty;
    visible_qty = sub64 l.visible_qty qty;
  })

-- The splice moves the node to the back.
unfoldable pub replenish_and_requeue : PriceLevel → ℕ → Option PriceLevel
replenish_and_requeue l position = do
  o ← find_node position l.orders
  some (record l {
    orders = erase_node position l.orders ++ replenish o ∷ [];
    visible_qty = add64 l.visible_qty (visible_qty (replenish o));
  })

unfoldable pub reduce_quantity : PriceLevel → ℕ → ℕ → Option PriceLevel
reduce_quantity l position new_qty = do
  o ← find_node position l.orders
  let n = reduce_to o new_qty
  some (record l {
    orders = set_node position n l.orders;
    total_qty = add64 (sub64 l.total_qty o.remaining) n.remaining;
    visible_qty = add64 (sub64 l.visible_qty (visible_qty o)) (visible_qty n);
  })

-- Splices the node at `position` of `source` to the back; returns what is left of `source` too.
unfoldable pub adopt : PriceLevel → List Order → ℕ → Option (PriceLevel × List Order)
adopt l source position = do
  o ← find_node position source
  some (
    record l {
      orders = l.orders ++ o ∷ [];
      total_qty = add64 l.total_qty o.remaining;
      visible_qty = add64 l.visible_qty (visible_qty o);
    },
    erase_node position source,
  )
