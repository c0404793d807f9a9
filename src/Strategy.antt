-- ===== src/Strategy.antt =====
-- core/matching_strategy.hpp and core/price_time_strategy.cpp: planning the fills of one level.
-- The loop takes fuel, one more than the quantity, since each round takes at least one lot. `none` is
-- a broken precondition.
pub mod Match
pub mod Simulation
pub mod Facts
use multithreaded_exchange_s.Prelude.{
  ℕ, zero, suc, ◌+◌, Bool, true, false, List, [], ◌∷◌, ◌++◌, map, Option, none, some, min, ltb,
  ◌==◌, if◌then◌else◌, precondition, ◌>>=◌,
}
use multithreaded_exchange_s.Prelude.Int.{ℤ}
use multithreaded_exchange_s.Prelude.Word.{sub64}
use multithreaded_exchange_s.Order.{Order, visible_qty, display_size}
use multithreaded_exchange_s.PriceLevel.{PriceLevel}

-- `level` is the price that keys the level pointed to, `resting` the iterator.
pub record PlannedFill : Type 0 where
  pub level : ℤ
  pub resting : ℕ
  pub price : ℤ
  pub quantity : ℕ
  pub resting_id : ℕ
  pub resting_account : ℕ

pub record MatchPlan : Type 0 where
  pub fills : List PlannedFill
  pub aggressor_filled : ℕ
  pub self_match_blocked : Bool

abbrev pub empty_plan : MatchPlan
empty_plan = record { fills = []; aggressor_filled = 0; self_match_blocked = false }

pub record Pending : Type 0 where
  pub position : ℕ
  pub account : ℕ
  pub id : ℕ
  pub remaining : ℕ
  pub visible : ℕ
  pub display : ℕ

unfoldable pub snapshot : Order → Pending
snapshot o = record {
  position = o.id;
  account = o.account;
  id = o.id;
  remaining = o.remaining;
  visible = visible_qty o;
  display = display_size o;
}

-- What one round leaves of the working copy: the front is consumed, goes to the back with a new
-- tranche, or stays.
unfoldable pub advance : Pending → List Pending → List Pending
advance front queue =
    if front.remaining == 0
    then queue
    else if front.visible == 0
    then queue ++ record front { visible = min front.display front.remaining } ∷ []
    else front ∷ queue

abbrev pub planned_fill : ℤ → Pending → ℕ → PlannedFill
planned_fill price front qty = record {
  level = price;
  resting = front.position;
  price = price;
  quantity = qty;
  resting_id = front.id;
  resting_account = front.account;
}

abbrev pub take_from : Pending → ℕ → Pending
take_from front qty = record front {
  remaining = sub64 front.remaining qty;
  visible = sub64 front.visible qty;
}

unfoldable pub plan_loop : ℕ → ℕ → ℤ → ℕ → List Pending → MatchPlan → Option MatchPlan
plan_loop zero account price available queue into = none
plan_loop (suc fuel) account price available [] into = some into
plan_loop (suc fuel) account price available (front ∷ queue) into =
    let qty = min available front.visible in
    let rest : Option MatchPlan =
      plan_loop fuel account price (sub64 available qty) (advance (take_from front qty) queue)
        (record into { fills = into.fills ++ planned_fill price front qty ∷ [] }) in
    if available == 0
    then some into
    else if front.account == account
    then some (record into { self_match_blocked = true })
    else (precondition (ltb 0 qty) >>= λ _. rest)

unfoldable pub plan : Order → ℕ → PriceLevel → MatchPlan → Option MatchPlan
plan aggressor available level into =
    plan_loop (suc available) aggressor.account level.price available (map snapshot level.orders)
      into
