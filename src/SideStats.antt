-- ===== src/SideStats.antt =====
-- analytics/side_stats.hpp, analytics/l2_feed.hpp and touchQty of analytics/book_metrics.cpp: what one
-- side of a book adds up to, and the snapshot that is published. Ratios are floating point and not
-- modelled.
pub mod Through
use multithreaded_exchange_s.OrderBook.{best_price, qty_at, OrderBook}
use multithreaded_exchange_s.Types.{before, Side}
use multithreaded_exchange_s.Prelude.Word.{add64}
use multithreaded_exchange_s.Book.Types.{Book}
use multithreaded_exchange_s.Order.{Order}
use multithreaded_exchange_s.PriceLevel.{PriceLevel, order_count}
use multithreaded_exchange_s.Prelude.Int.{ℤ}
use multithreaded_exchange_s.Prelude.{
  ℕ, zero, suc, ◌+◌, ◌-◌, ◌*◌, ◌/◌, ◌%◌, ◌^◌, ◌≤◌, ◌<◌, min, ◌≡◌, refl, sym, ap, ap₂, subst, ◌∙◌,
  ◌≢◌, ◌↔◌, ◌⊎◌, inl, inr, Bool, true, false, not, ◌&&◌, ◌||◌, Option, none, some, List, [], ◌∷◌,
  ◌++◌, map, append-nil, append_assoc, arith, ltb, leb, ◌==◌, if◌then◌else◌, ltb→lt, lt→ltb, ==_iff,
  Bool-cases, Option-cases, length, take, drop, length-append, take-append, drop-append, All,
  All-append, All-of, All-map, ◌>>=◌, precondition,
}

pub record L2Level : Type 0 where
  pub price : ℤ
  pub visible_qty : ℕ
  pub total_qty : ℕ
  pub order_count : ℕ

-- std::accumulate with addTotalQty and with addVisibleQty.
unfoldable pub sum_total : ℕ → List PriceLevel → ℕ
sum_total running [] = running
sum_total running (l ∷ ls) = sum_total (add64 running l.total_qty) ls

unfoldable pub sum_visible_qty : ℕ → List PriceLevel → ℕ
sum_visible_qty running [] = running
sum_visible_qty running (l ∷ ls) = sum_visible_qty (add64 running l.visible_qty) ls

unfoldable pub resting_qty : OrderBook → ℕ
unfolding sum_total
resting_qty side = sum_total 0 side.levels

unfoldable pub visible_qty : OrderBook → ℕ
unfolding sum_visible_qty
visible_qty side = sum_visible_qty 0 side.levels

-- The levels in front of std::map::upper_bound.
unfoldable pub before_upper_bound : Side → ℤ → List PriceLevel → List PriceLevel
before_upper_bound side worst [] = []
before_upper_bound side worst (l ∷ ls) =
    if before side worst l.price then [] else l ∷ before_upper_bound side worst ls

unfoldable pub qty_through : Side → OrderBook → ℤ → ℕ
unfolding sum_total before_upper_bound
qty_through side b worst = sum_total 0 (before_upper_bound side worst b.levels)

unfoldable pub depth_qty : OrderBook → ℕ → ℕ
unfolding sum_total
depth_qty side depth = sum_total 0 (take depth side.levels)

abbrev pub rung : PriceLevel → L2Level
rung l = record {
  price = l.price;
  visible_qty = l.visible_qty;
  total_qty = l.total_qty;
  order_count = order_count l;
}

unfoldable pub l2_snapshot : OrderBook → ℕ → List L2Level
l2_snapshot side depth = map rung (take depth side.levels)

-- partition_copy and count_if over the orders of the side, in the order of its iterator.
unfoldable pub partition_orders : (Order → Bool) → List Order → List Order × List Order
partition_orders predicate [] = ([], [])
partition_orders predicate (o ∷ os) =
    let split = partition_orders predicate os in
    if predicate o then (o ∷ split.0, split.1) else (split.0, o ∷ split.1)

unfoldable pub count_orders : (Order → Bool) → List Order → ℕ
count_orders predicate [] = 0
count_orders predicate (o ∷ os) =
    let count = count_orders predicate os in if predicate o then count + 1 else count

-- max_element by the remaining quantity: the first of the largest.
unfoldable pub larger_from : Order → List Order → Order
larger_from best [] = best
larger_from best (o ∷ os) = larger_from (if ltb best.remaining o.remaining then o else best) os

unfoldable pub largest_order : List Order → Option Order
unfolding larger_from
largest_order [] = none
largest_order (o ∷ os) = some (larger_from o os)

pub record TouchQty : Type 0 where
  pub bid : ℕ
  pub ask : ℕ

abbrev pub qty_at_best : OrderBook → Option ℤ → ℕ
qty_at_best side none = 0
qty_at_best side (some p) = qty_at p side

unfoldable pub touch_qty : Book → TouchQty
touch_qty b = record {
  bid = qty_at_best b.bids (best_price b.bids);
  ask = qty_at_best b.asks (best_price b.asks);
}

-- L2Publisher of analytics/l2_feed.hpp: each call is atomic under its lock.
pub record L2Publisher : Type 0 where
  pub bids : List L2Level
  pub asks : List L2Level
  pub sequence : ℕ
  pub depth : ℕ

unfoldable pub make_publisher : ℕ → L2Publisher
make_publisher depth = record { bids = []; asks = []; sequence = 0; depth = depth }

unfoldable pub publish : Book → L2Publisher → L2Publisher
unfolding l2_snapshot
publish b p = record p {
  bids = l2_snapshot b.bids p.depth;
  asks = l2_snapshot b.asks p.depth;
  sequence = add64 p.sequence 1;
}
