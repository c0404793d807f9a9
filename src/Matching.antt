-- ===== src/Matching.antt =====
-- The specification of a submit's matching phase: the levels of the opposite side are swept from
-- the touch outward, and their orders are consumed directly. core/book.cpp plans first and
-- commits afterwards, which Matching/Plan and Matching/Sweep compare with this.
pub mod Plan
pub mod Head
pub mod Commit
pub mod Sweep
use multithreaded_exchange_s.Prelude.{
  ℕ, suc, ◌%◌, ◌<◌, ◌≡◌, refl, Bool, true, false, not, List, [], ◌∷◌, ◌++◌, map, ◌==◌,
  if◌then◌else◌, arith, All, inl, inr, Bool-cases,
}
use multithreaded_exchange_s.Prelude.Word.{u64_mod}
use multithreaded_exchange_s.Order.{Order, crosses}
use multithreaded_exchange_s.Order.Lifecycle.{IsLive}
use multithreaded_exchange_s.Queue.{sum_remaining, sum_visible}
use multithreaded_exchange_s.PriceLevel.{PriceLevel}
use multithreaded_exchange_s.Strategy.{PlannedFill}
use multithreaded_exchange_s.Strategy.Match.{Matched, Matches, match_queue, match_queue-Matches}
use multithreaded_exchange_s.Strategy.Simulation.{planned}

-- The level with another queue, and the sums of that queue.
abbrev pub level_with : PriceLevel → List Order → PriceLevel
level_with l os = record {
  price = l.price;
  orders = os;
  total_qty = sum_remaining os % u64_mod;
  visible_qty = sum_visible os % u64_mod;
}

pub record Swept : Type 0 where
  pub fills : List PlannedFill
  pub left : ℕ
  pub blocked : Bool
  pub gone : List ℕ
  pub levels : List PriceLevel

abbrev pub halted : ℕ → List PriceLevel → Swept
halted a ls = record { fills = []; left = a; blocked = false; gone = []; levels = ls }

abbrev pub swept_blocked : PriceLevel → List PriceLevel → Matched → Swept
swept_blocked l ls m = record {
  fills = map (planned l.price) m.takes;
  left = m.left;
  blocked = true;
  gone = m.gone;
  levels = level_with l m.rest ∷ ls;
}

abbrev pub swept_on : PriceLevel → Matched → Swept → Swept
swept_on l m r = record {
  fills = map (planned l.price) m.takes ++ r.fills;
  left = r.left;
  blocked = r.blocked;
  gone = m.gone ++ r.gone;
  levels = level_with l m.rest ∷ r.levels;
}

unfoldable pub sweep : Order → List PriceLevel → ℕ → Swept
sweep ag [] a = halted a []
sweep ag (l ∷ ls) a =
    let m = match_queue (suc a) ag.account a l.orders in
    let further = swept_on l m (sweep ag ls m.left) in
    if a == 0
    then halted a (l ∷ ls)
    else if not (crosses ag l.price)
    then halted a (l ∷ ls)
    else if m.blocked
    then swept_blocked l ls m
    else further

-- A run of the sweep, level by level.
pub data Sweeps (ag : Order) : ℕ → List PriceLevel → Swept → Type 0 where
  spent : (a : ℕ) (ls : List PriceLevel) → a ≡ 0 → Sweeps ag a ls (halted a ls)
  exhausted : (a : ℕ) → Sweeps ag a [] (halted a [])
  uncrossed :
      (a : ℕ) (l : PriceLevel) (ls : List PriceLevel)
      → crosses ag l.price ≡ false
      → Sweeps ag a (l ∷ ls) (halted a (l ∷ ls))
  own_met :
      (a : ℕ) (l : PriceLevel) (ls : List PriceLevel) (m : Matched)
      → 0 < a
      → crosses ag l.price ≡ true
      → Matches ag.account a l.orders m
      → m.blocked ≡ true
      → Sweeps ag a (l ∷ ls) (swept_blocked l ls m)
  swept :
      (a : ℕ) (l : PriceLevel) (ls : List PriceLevel) (m : Matched) (r : Swept)
      → 0 < a
      → crosses ag l.price ≡ true
      → Matches ag.account a l.orders m
      → m.blocked ≡ false
      → Sweeps ag m.left ls r
      → Sweeps ag a (l ∷ ls) (swept_on l m r)

abbrev pub LevelsLive : List PriceLevel → Type 0
LevelsLive = All (λ l. All IsLive l.orders)

pub sweep-Sweeps :
    (ag : Order) (ls : List PriceLevel) (a : ℕ) → LevelsLive ls → Sweeps ag a ls (sweep ag ls a)
unfolding sweep
sweep-Sweeps ag [] a live = exhausted a
sweep-Sweeps ag (l ∷ ls) a live =
    let m = match_queue (suc a) ag.account a l.orders in
    let run = match_queue-Matches (suc a) ag.account a l.orders (omega arith) live.0 in
    elim (Bool-cases (a == 0)) [
      | inl z ↦ rw z (spent a (l ∷ ls) (ground arith))
      | inr z ↦
          let some_left : 0 < a = ground arith in
          elim (Bool-cases (crosses ag l.price)) [
            | inr x ↦ rw (z, x) (uncrossed a l ls x)
            | inl x ↦ elim (Bool-cases (m.blocked)) [
              | inl b ↦ rw (z, x, b) (own_met a l ls m some_left x run b)
              | inr b ↦
                  rw (z, x, b)
                    (swept a l ls m _ some_left x run b (sweep-Sweeps ag ls m.left live.1))
            ]
          ]
    ]
