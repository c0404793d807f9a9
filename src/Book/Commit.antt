-- ===== src/Book/Commit.antt =====
-- commitSubmit of core/book.cpp: the plan applied to both sides.
use multithreaded_exchange_s.Prelude.{
  ℕ, Bool, List, [], ◌∷◌, ◌++◌, Option, some, if◌then◌else◌, ◌>>=◌,
}
use multithreaded_exchange_s.Prelude.Word.{add64}
use multithreaded_exchange_s.Types.{Side}
use multithreaded_exchange_s.Order.{
  Order, is_filled, assign_sequence, on_partial_fill, needs_replenish,
}
use multithreaded_exchange_s.Queue.{find_node}
use multithreaded_exchange_s.PriceLevel.{
  PriceLevel, extract, apply_fill, replenish_and_requeue, adopt,
}
use multithreaded_exchange_s.Strategy.{PlannedFill}
use multithreaded_exchange_s.OrderBook.{
  OrderBook, find_level, set_level, install_level, install_index, unindex,
  drop_empty_levels_from_front,
}
use multithreaded_exchange_s.Book.Types.{Fill, SubmitStatus, SubmitResult}
use multithreaded_exchange_s.Book.Plan.{PreparedSubmit}

-- The variables that the loop of commitSubmit changes.
pub record Commit : Type 0 where
  pub opp : OrderBook
  pub aggressor : Order
  pub fills : List Fill

abbrev pub fill_of : Order → PlannedFill → Fill
fill_of a p = record {
  aggressor_id = a.id;
  resting_id = p.resting_id;
  price = p.price;
  quantity = p.quantity;
  aggressor_account = a.account;
  resting_account = p.resting_account;
  aggressor_side = a.side;
}

-- The end of the loop's body: a filled order leaves the index and its level, and an exhausted
-- tranche is replenished.
unfoldable pub settle_fill : PlannedFill → PriceLevel → Order → OrderBook → Option OrderBook
settle_fill p l o opp =
    if is_filled o
    then (extract l p.resting >>= λ out. some (record {
      levels = set_level p.level out.1 opp.levels;
      index = unindex p.resting_id opp.index;
    }))
    else if needs_replenish o
    then (replenish_and_requeue l p.resting >>= λ m.
        some (record opp { levels = set_level p.level m opp.levels }))
    else some (record opp { levels = set_level p.level l opp.levels })

unfoldable pub commit_fill : PlannedFill → Commit → Option Commit
commit_fill p c = do
  before_fill ← find_level p.level c.opp.levels
  l ← apply_fill before_fill p.resting p.quantity
  let a = on_partial_fill c.aggressor p.quantity
  o ← find_node p.resting l.orders
  opp ← settle_fill p l o c.opp
  some (record { opp = opp; aggressor = a; fills = c.fills ++ fill_of a p ∷ [] })

unfoldable pub commit_fills : List PlannedFill → Commit → Option Commit
commit_fills [] c = some c
commit_fills (p ∷ ps) c = commit_fill p c >>= λ d. commit_fills ps d

abbrev pub closing_status : Order → Bool → SubmitStatus
closing_status a blocked =
    if is_filled a
    then SubmitStatus.filled
    else if blocked
    then SubmitStatus.self_match_blocked
    else SubmitStatus.cancelled_remainder

abbrev pub resting_status : List Fill → SubmitStatus
resting_status [] = SubmitStatus.resting
resting_status (f ∷ fs) = SubmitStatus.partially_filled_resting

pub record Committed : Type 0 where
  pub result : SubmitResult
  pub own : OrderBook
  pub opp : OrderBook
  pub next_sequence : ℕ

-- Rests the held order: the level node, the index node, the splice.
unfoldable pub rest_order : Side → OrderBook → PreparedSubmit → Order → Option OrderBook
rest_order side own prepared a = do
  node ← prepared.level_node
  id ← prepared.index_node
  let levels = install_level side node own.levels
  destination ← find_level prepared.rest_price levels
  out ← adopt destination (a ∷ []) prepared.position
  some (record {
    levels = set_level prepared.rest_price out.0 levels;
    index =
        install_index id (record { price = prepared.rest_price; position = prepared.position })
          own.index;
  })

unfoldable pub commit_submit : Side → OrderBook → OrderBook → ℕ → PreparedSubmit → Option Committed
commit_submit side own opp seq prepared = do
  held ← find_node prepared.position prepared.holding
  done ←
      commit_fills prepared.match_plan.fills
        (record { opp = opp; aggressor = assign_sequence held seq; fills = [] })
  let swept = drop_empty_levels_from_front done.opp
  if prepared.will_rest
      then (rest_order side own prepared done.aggressor >>= λ own'. some (record {
        result = record {
          status = resting_status done.fills;
          fills = done.fills;
          filled_qty = prepared.match_plan.aggressor_filled;
          resting_qty = done.aggressor.remaining;
        };
        own = own';
        opp = swept;
        next_sequence = add64 seq 1;
      }))
      else some (record {
        result = record {
          status = closing_status done.aggressor prepared.match_plan.self_match_blocked;
          fills = done.fills;
          filled_qty = prepared.match_plan.aggressor_filled;
          resting_qty = 0;
        };
        own = own;
        opp = swept;
        next_sequence = add64 seq 1;
      })
