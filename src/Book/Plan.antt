-- ===== src/Book/Plan.antt =====
-- planAgainst and prepareSubmit of core/book.cpp: what can fail, before anything has changed.
use multithreaded_exchange_s.Prelude.{
  ℕ, Bool, true, false, not, ◌&&◌, List, [], ◌∷◌, Option, none, some, ltb, ◌==◌, if◌then◌else◌,
  ◌>>=◌,
}
use multithreaded_exchange_s.Prelude.Lists.{length, drop}
use multithreaded_exchange_s.Prelude.Int.{ℤ}
use multithreaded_exchange_s.Prelude.Word.{add64, sub64}
use multithreaded_exchange_s.Order.{Order, crosses, resting_price}
use multithreaded_exchange_s.PriceLevel.{PriceLevel, make_level}
use multithreaded_exchange_s.Strategy.{PlannedFill, MatchPlan, empty_plan, plan}
use multithreaded_exchange_s.OrderBook.{OrderBook}

unfoldable pub sum_quantity : ℕ → List PlannedFill → ℕ
sum_quantity acc [] = acc
sum_quantity acc (f ∷ fs) = sum_quantity (add64 acc f.quantity) fs

-- The loop of planAgainst over the levels; gives the plan and what is left of `available`.
unfoldable pub plan_levels : Order → List PriceLevel → ℕ → MatchPlan → Option (MatchPlan × ℕ)
plan_levels aggressor [] available into = some (into, available)
plan_levels aggressor (l ∷ ls) available into =
    if available == 0
    then some (into, available)
    else if not (crosses aggressor l.price)
    then some (into, available)
    else (plan aggressor available l into >>= λ grown.
        let planned : ℕ = sum_quantity 0 (drop (length into.fills) grown.fills) in
        let left = sub64 available planned in
        if grown.self_match_blocked
        then some (grown, left)
        else if planned == 0
        then some (grown, left)
        else plan_levels aggressor ls left grown)

unfoldable pub plan_against : OrderBook → Order → MatchPlan → Option MatchPlan
plan_against opp aggressor into = do
  out ← plan_levels aggressor opp.levels aggressor.remaining into
  some (record (out.0) { aggressor_filled = sub64 aggressor.remaining out.1 })

-- The nodes are built only for an order that will rest.
pub record PreparedSubmit : Type 0 where
  pub match_plan : MatchPlan
  pub holding : List Order
  pub position : ℕ
  pub level_node : Option PriceLevel
  pub index_node : Option ℕ
  pub rest_price : ℤ
  pub will_rest : Bool

abbrev pub prepared_with : MatchPlan → Order → Option ℤ → Bool → Option PreparedSubmit
prepared_with p o (some price) true = some (record {
  match_plan = p;
  holding = o ∷ [];
  position = o.id;
  level_node = some (make_level price);
  index_node = some o.id;
  rest_price = price;
  will_rest = true;
})
prepared_with p o price will = some (record {
  match_plan = p;
  holding = o ∷ [];
  position = o.id;
  level_node = none;
  index_node = none;
  rest_price = ℤ.pos 0;
  will_rest = false;
})

unfoldable pub prepare_submit : OrderBook → Order → Option PreparedSubmit
prepare_submit opp o = do
  p ← plan_against opp o empty_plan
  let resting_qty = sub64 o.remaining p.aggressor_filled
  prepared_with p o (resting_price o) (ltb 0 resting_qty && not p.self_match_blocked)
