-- ===== src/Matching/Sweep.antt =====
-- commitSubmit's loop over a whole plan: the levels, the index, the aggressor and the fills.
use multithreaded_exchange_s.Matching.{
  sweep-Sweeps, sweep, LevelsLive, Swept, Sweeps, level_with, spent, exhausted, uncrossed, own_met,
  swept,
}
use multithreaded_exchange_s.Matching.Commit.{
  map-fill_of-consume, consume, consume-append, commit_fills-append, commit_fills-Matches,
}
use mathlib.Core.List.{map-append}
use multithreaded_exchange_s.Strategy.Simulation.{planned}
use multithreaded_exchange_s.Prelude.{
  ℕ, ◌≡◌, refl, sym, ap, ◌∙◌, some, List, [], ◌∷◌, ◌++◌, map, append-nil, append_assoc, All,
  All-append, All-of,
}
use multithreaded_exchange_s.Book.Commit.{Commit, commit_fills, fill_of}
use multithreaded_exchange_s.Book.Types.{Fill}
use multithreaded_exchange_s.PriceLevel.Aggregates.{IsSummed}
use multithreaded_exchange_s.PriceLevel.{PriceLevel}
use multithreaded_exchange_s.OrderBook.Levels.{
  Apart, Distinct, eqb_ℤ_sym, unindex_all, unindex_all-append,
}
use multithreaded_exchange_s.OrderBook.{OrderBook, Locator}
use multithreaded_exchange_s.Order.{Order}
use multithreaded_exchange_s.Matching.Head.{level_with_lem}

abbrev pub LevelsSummed : List PriceLevel → Type 0
LevelsSummed = All IsSummed

abbrev ApartAll : List PriceLevel → List PriceLevel → Type 0
ApartAll pre = All (λ l. Apart l.price pre)

ApartAll-snoc :
    (pre : List PriceLevel) (x : PriceLevel) (ls : List PriceLevel)
    → ApartAll pre ls
    → Apart x.price ls
    → ApartAll (pre ++ x ∷ []) ls
ApartAll-snoc pre x [] h k = tt
ApartAll-snoc pre x (l ∷ ls) h k = (
  All-append _ pre (x ∷ []) h.0 (eqb_ℤ_sym l.price x.price k.0, tt),
  ApartAll-snoc pre x ls h.1 k.1,
)

-- The state of the loop between two levels.
abbrev pub at_levels : List PriceLevel → List (ℕ × Locator) → Order → List Fill → Commit
at_levels ls index ag fills = record {
  opp = record { levels = ls; index = index };
  aggressor = ag;
  fills = fills;
}

commit_fills-Sweeps :
    {by : Order} {a : ℕ} {ls : List PriceLevel} {s : Swept} (pre : List PriceLevel)
    (index : List (ℕ × Locator)) (ag : Order) (fills : List Fill)
    → Sweeps by a ls s
    → LevelsSummed ls
    → Distinct ls
    → ApartAll pre ls
    → commit_fills s.fills (at_levels (pre ++ ls) index ag fills)
      ≡ some (
          at_levels
            (pre ++ s.levels)
            (unindex_all s.gone index)
            (consume ag s.fills)
            (fills ++ map (fill_of ag) s.fills))
unfolding commit_fills consume unindex_all
commit_fills-Sweeps pre index ag fills (spent a ls z) sum dis apart =
    ap (λ fs. some (at_levels (pre ++ ls) index ag fs)) (sym (append-nil fills))
commit_fills-Sweeps pre index ag fills (exhausted a) sum dis apart =
    ap (λ fs. some (at_levels (pre ++ []) index ag fs)) (sym (append-nil fills))
commit_fills-Sweeps pre index ag fills (uncrossed a l ls x) sum dis apart =
    ap (λ fs. some (at_levels (pre ++ l ∷ ls) index ag fs)) (sym (append-nil fills))
commit_fills-Sweeps pre index ag fills (own_met a l ls m pos x run b) sum dis apart =
    ap
      (λ k. commit_fills (map (planned l.price) m.takes) (at_levels (pre ++ k ∷ ls) index ag fills))
      (level_with_lem l l sum.0 refl)
    ∙ commit_fills-Matches pre l ls apart.0 index ag fills run
commit_fills-Sweeps pre index ag fills (swept a l ls m r pos x run b rest) sum dis apart =
    let takes = map (planned l.price) m.takes in
    let l' = level_with l m.rest in
    let ag' = consume ag takes in
    let fills' = fills ++ map (fill_of ag) takes in
    let index' = unindex_all m.gone index in
    ap (λ k. commit_fills (takes ++ r.fills) (at_levels (pre ++ k ∷ ls) index ag fills))
      (level_with_lem l l sum.0 refl)
    ∙ commit_fills-append takes r.fills _ _
        (commit_fills-Matches pre l ls apart.0 index ag fills run)
    ∙ ap (λ ps. commit_fills r.fills (at_levels ps index' ag' fills'))
        (sym (append_assoc pre (l' ∷ []) ls))
    ∙ commit_fills-Sweeps (pre ++ l' ∷ []) index' ag' fills' rest sum.1 dis.1
        (ApartAll-snoc pre l' ls apart.1 dis.0)
    ∙ (λ i. some (
        at_levels (append_assoc pre (l' ∷ []) r.levels i)
          (sym (unindex_all-append m.gone r.gone index) i) (sym (consume-append ag takes r.fills) i)
          (joined i)))
  where
    joined :
        fills
          ++ map (fill_of ag) (map (planned l.price) m.takes)
          ++ map (fill_of (consume ag (map (planned l.price) m.takes))) r.fills
        ≡ fills ++ map (fill_of ag) (map (planned l.price) m.takes ++ r.fills)
    joined =
        ap (◌++◌ (fills ++ map (fill_of ag) (map (planned l.price) m.takes)))
          (map-fill_of-consume ag (map (planned l.price) m.takes) r.fills)
        ∙ append_assoc fills _ _
        ∙ ap (◌++◌ fills) (sym (map-append (fill_of ag) (map (planned l.price) m.takes) r.fills))

-- Where the levels are live, have true sums and distinct prices, committing the executions of a
-- sweep never meets a dangling iterator: it leaves the levels of the sweep, the index without the ids
-- that are gone, the order less what it took, and one fill for each execution.
pub commit_fills-sweep :
    (by ag : Order) (a : ℕ) (opp : OrderBook)
    → LevelsLive opp.levels
    → LevelsSummed opp.levels
    → Distinct opp.levels
    → let s = sweep by opp.levels a in
      commit_fills s.fills (record { opp = opp; aggressor = ag; fills = [] })
      ≡ some (
          at_levels s.levels
            (unindex_all s.gone opp.index)
            (consume ag s.fills)
            (map (fill_of ag) s.fills))
commit_fills-sweep by ag a opp live sum dis =
    commit_fills-Sweeps [] opp.index ag [] (sweep-Sweeps by opp.levels a live) sum dis
      (All-of (λ l. Apart l.price []) (λ l. tt) opp.levels)
