-- ===== src/Tests/Matching.antt =====
-- The theorems on matching at concrete levels and orders.
use multithreaded_exchange_s.Entry.Refine.{
  Sorted-Distinct, LevelsOk-summed, LevelsOk-trade, LevelsOk-live,
}
use multithreaded_exchange_s.Matching.Sweep.{commit_fills-sweep, at_levels}
use multithreaded_exchange_s.Book.Commit.{fill_of, commit_fills}
use multithreaded_exchange_s.Matching.Commit.{consume}
use multithreaded_exchange_s.Order.{
  replenish, needs_replenish, on_partial_fill, is_filled, visible_qty, crosses,
}
use multithreaded_exchange_s.Strategy.Simulation.{plan-match_queue, extended}
use multithreaded_exchange_s.Prelude.Int.{pos, ℤ}
use multithreaded_exchange_s.Matching.Plan.{plan_against-sweep}
use multithreaded_exchange_s.Validity.Swept.{Sweeps-SideOk}
use multithreaded_exchange_s.OrderBook.Levels.{unindex_all}
use multithreaded_exchange_s.Prelude.Word.{sub64}
use multithreaded_exchange_s.Entry.Valid.{crosses_mono}
use multithreaded_exchange_s.Strategy.Match.{settled, match_queue}
use multithreaded_exchange_s.Types.{before, Side, opposite}
use multithreaded_exchange_s.OrderBook.{drop_empty}
use multithreaded_exchange_s.Tests.{offered-BookOk, offers, ask_side, buy_eleven, buy_hidden}
use multithreaded_exchange_s.Strategy.{empty_plan, plan}
use multithreaded_exchange_s.Matching.{sweep-Sweeps, LevelsLive, Sweeps, sweep}
use multithreaded_exchange_s.Validity.{SideOk, count_levels}
use multithreaded_exchange_s.Book.Plan.{plan_against}
use multithreaded_exchange_s.Prelude.{ℕ, ◌≤◌, ◌≡◌, refl, true, false, some, [], map, arith}

offers-live : LevelsLive ask_side.levels
offers-live = LevelsOk-live Side.sell ask_side.levels offered-BookOk.asks.levels

plan-match_queue_example :
    plan buy_eleven 11 offers empty_plan
    ≡ some (extended empty_plan (pos 101) (match_queue 12 40 11 offers.orders))
plan-match_queue_example =
    plan-match_queue buy_eleven 11 offers empty_plan (omega arith) offers-live.0

plan_against-sweep_example :
    plan_against ask_side buy_eleven empty_plan
    ≡ some (record {
      fills = (sweep buy_eleven ask_side.levels 11).fills;
      aggressor_filled = sub64 11 (sweep buy_eleven ask_side.levels 11).left;
      self_match_blocked = (sweep buy_eleven ask_side.levels 11).blocked;
    })
plan_against-sweep_example =
    plan_against-sweep ask_side buy_eleven (omega arith) offers-live
      (LevelsOk-trade Side.sell ask_side.levels offered-BookOk.asks.levels)

commit_fills-sweep_example :
    commit_fills
      (sweep buy_eleven ask_side.levels 11).fills
      (record { opp = ask_side; aggressor = buy_eleven; fills = [] })
    ≡ some (
        at_levels
          (sweep buy_eleven ask_side.levels 11).levels
          (unindex_all (sweep buy_eleven ask_side.levels 11).gone ask_side.index)
          (consume buy_eleven (sweep buy_eleven ask_side.levels 11).fills)
          (map (fill_of buy_eleven) (sweep buy_eleven ask_side.levels 11).fills))
commit_fills-sweep_example =
    commit_fills-sweep buy_eleven buy_eleven 11 ask_side offers-live
      (LevelsOk-summed Side.sell ask_side.levels offered-BookOk.asks.levels)
      (Sorted-Distinct Side.sell ask_side.levels offered-BookOk.asks.sorted)

eleven_run : Sweeps buy_eleven 11 ask_side.levels (sweep buy_eleven ask_side.levels 11)
eleven_run = sweep-Sweeps buy_eleven ask_side.levels 11 offers-live

once : (j : ℕ) → count_levels j ask_side.levels ≤ 1
once j = omega (arith, offered-BookOk.unique j)

Sweeps-SideOk_example : SideOk Side.sell (record {
  levels = drop_empty (sweep buy_eleven ask_side.levels 11).levels;
  index = unindex_all (sweep buy_eleven ask_side.levels 11).gone ask_side.index;
})
Sweeps-SideOk_example = Sweeps-SideOk Side.sell ask_side eleven_run offered-BookOk.asks once

hidden_run : Sweeps buy_hidden 30 ask_side.levels (sweep buy_hidden ask_side.levels 30)
hidden_run = sweep-Sweeps buy_hidden ask_side.levels 30 offers-live

hidden_left : (sweep buy_hidden ask_side.levels 30).left ≡ 13
unfolding sweep match_queue crosses visible_qty settled is_filled on_partial_fill needs_replenish
    replenish sub64
hidden_left = refl

hidden_free : (sweep buy_hidden ask_side.levels 30).blocked ≡ false
unfolding sweep match_queue crosses visible_qty settled is_filled on_partial_fill needs_replenish
    replenish sub64
hidden_free = refl

hidden_mono :
    (p q : ℤ)
    → before Side.sell p q ≡ true
    → crosses buy_hidden p ≡ false
    → crosses buy_hidden q ≡ false
unfolding opposite
hidden_mono p q h k = crosses_mono Side.buy buy_hidden p q refl h k
