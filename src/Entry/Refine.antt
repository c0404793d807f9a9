-- ===== src/Entry/Refine.antt =====
-- prepareSubmit and commitSubmit of core/book.cpp against the specified entry.
use multithreaded_exchange_s.Book.Commit.{fill_of, commit_fills, commit_submit, rest_order}
use multithreaded_exchange_s.OrderBook.Levels.{unindex_all, Distinct}
use multithreaded_exchange_s.Order.{assign_sequence, resting_price, Order}
use multithreaded_exchange_s.OrderBook.{install_index, OrderBook, drop_empty_levels_from_front}
use multithreaded_exchange_s.Types.{opposite, before, Side}
use multithreaded_exchange_s.PriceLevel.{enqueue, is_nil, make_level, PriceLevel, adopt, is_empty}
use multithreaded_exchange_s.Prelude.Word.{sub64_exact, sub64, u64_mod}
use multithreaded_exchange_s.Matching.Head.{find_node-head}
use multithreaded_exchange_s.Prelude.Int.{eqb_ℤ, ℤ}
use multithreaded_exchange_s.Order.Lifecycle.{IsLive}
use multithreaded_exchange_s.PriceLevel.Aggregates.{IsSummed}
use multithreaded_exchange_s.Strategy.Facts.{RestsAt}
use multithreaded_exchange_s.Queue.{sum_remaining}
use multithreaded_exchange_s.Prelude.{
  ℕ, ◌-◌, ◌<◌, ◌≡◌, refl, ap, ◌∙◌, Bool, true, false, not, ◌&&◌, Option, none, some, List, [], ◌∷◌,
  map, arith, ltb, All, All-map, ◌>>=◌,
}
use multithreaded_exchange_s.Entry.{entered, sweep_for, rest_price, aggressor_after}
use multithreaded_exchange_s.Entry.Aggressor.{Sweeps-total, consume-id}
use multithreaded_exchange_s.Validity.{LevelOk, SideOk, Sorted}
use multithreaded_exchange_s.Validity.Rest.{with_rested, install-rested}
use multithreaded_exchange_s.Book.Plan.{prepare_submit, prepared_with, PreparedSubmit}
use multithreaded_exchange_s.Matching.Plan.{LevelsTrade, plan_against-sweep}
use multithreaded_exchange_s.Matching.Sweep.{LevelsSummed, commit_fills-sweep, at_levels}
use multithreaded_exchange_s.Matching.{LevelsLive, sweep-Sweeps}

-- What a well-formed side gives the matching lemmas.
pub LevelsOk-live : (side : Side) (ls : List PriceLevel) → All (LevelOk side) ls → LevelsLive ls
LevelsOk-live side =
    All-map (LevelOk side) _
      (λ l v. All-map (RestsAt side l.price) IsLive (λ o r. r.live) l.orders v.resting)

pub LevelsOk-summed : (side : Side) (ls : List PriceLevel) → All (LevelOk side) ls → LevelsSummed ls
LevelsOk-summed side = All-map (LevelOk side) IsSummed (λ l v. v.summed)

queue_trades :
    (side : Side) (p : ℤ) (os : List Order)
    → is_nil os ≡ false
    → All (RestsAt side p) os
    → 0 < sum_remaining os
unfolding sum_remaining
queue_trades side p [] h all = absurd (cc)
queue_trades side p (o ∷ os) h all = omega (arith, (all.0).live.shows, (all.0).live.shown)

pub LevelsOk-trade : (side : Side) (ls : List PriceLevel) → All (LevelOk side) ls → LevelsTrade ls
unfolding is_empty
LevelsOk-trade side =
    All-map (LevelOk side) _ (λ l v. queue_trades side l.price l.orders v.holds v.resting)

pub before_distinct : (side : Side) (p q : ℤ) → before side p q ≡ true → eqb_ℤ q p ≡ false
before_distinct Side.buy p q h = ground arith
before_distinct Side.sell p q h = ground arith

pub Sorted-Distinct : (side : Side) (ls : List PriceLevel) → Sorted side ls → Distinct ls
Sorted-Distinct side [] h = tt
Sorted-Distinct side (l ∷ ls) h = (
  All-map _ _ (λ m k. before_distinct side l.price m.price k) ls h.0,
  Sorted-Distinct side ls h.1,
)

-- The plan and the flags of prepareSubmit, read off the sweep.
prepare_submit-sweep :
    (side : Side) (opp : OrderBook) (o : Order)
    → o.remaining < u64_mod
    → SideOk side opp
    → let s = sweep_for o opp in
      prepare_submit opp o
      ≡ prepared_with
          (record {
            fills = s.fills;
            aggressor_filled = sub64 o.remaining s.left;
            self_match_blocked = s.blocked;
          })
          o
          (resting_price o)
          (ltb 0 s.left && not s.blocked)
unfolding prepare_submit
prepare_submit-sweep side opp o w v =
    let s = sweep_for o opp in
    let live = LevelsOk-live side opp.levels v.levels in
    let total = Sweeps-total (sweep-Sweeps o opp.levels o.remaining live) in
    let back : sub64 o.remaining (sub64 o.remaining s.left) ≡ s.left =
      ap (sub64 o.remaining) (sub64_exact o.remaining s.left w (omega (arith, total)))
      ∙ sub64_exact o.remaining (o.remaining - s.left) w (omega arith)
      ∙ omega (arith, total) in
    rw (plan_against-sweep opp o w live (LevelsOk-trade side opp.levels v.levels), back)

pub rest_order-rested :
    (side : Side) (p : ℤ) (own : OrderBook) (o a : Order) (prepared : PreparedSubmit)
    → a.id ≡ o.id
    → prepared.level_node ≡ some (make_level p)
    → prepared.index_node ≡ some o.id
    → prepared.rest_price ≡ p
    → prepared.position ≡ o.id
    → rest_order side own prepared a ≡ some (with_rested side p a own)
unfolding rest_order adopt enqueue
rest_order-rested side p own o a prepared same node index price position =
    let (d, found, written) = install-rested side p a own.levels in
    rw (node, index, price, position, ← same)
      (rw (found, find_node-head a [])
        (ap
          (λ ls. some (record {
            levels = ls;
            index = install_index a.id (record { price = p; position = a.id }) own.index;
          }))
          written))

module _ (side : Side) (own opp : OrderBook) (seq : ℕ) (o : Order) (w : o.remaining < u64_mod)
    (v : SideOk (opposite side) opp) where
  committed :
      let s = sweep_for o opp in
      commit_fills s.fills (record { opp = opp; aggressor = assign_sequence o seq; fills = [] })
      ≡ some (
          at_levels s.levels
            (unindex_all s.gone opp.index)
            (aggressor_after o seq s)
            (map (fill_of (assign_sequence o seq)) s.fills))
  committed =
      commit_fills-sweep o (assign_sequence o seq) o.remaining opp
        (LevelsOk-live (opposite side) opp.levels v.levels)
        (LevelsOk-summed (opposite side) opp.levels v.levels)
        (Sorted-Distinct (opposite side) opp.levels v.sorted)

  aggressor_id : (aggressor_after o seq (sweep_for o opp)).id ≡ o.id
  unfolding assign_sequence
  aggressor_id = consume-id (assign_sequence o seq) (sweep_for o opp).fills

  prepared_at : ℤ → PreparedSubmit
  prepared_at p = record {
    match_plan = record {
      fills = (sweep_for o opp).fills;
      aggressor_filled = sub64 o.remaining (sweep_for o opp).left;
      self_match_blocked = (sweep_for o opp).blocked;
    };
    holding = o ∷ [];
    position = o.id;
    level_node = some (make_level p);
    index_node = some o.id;
    rest_price = p;
    will_rest = true;
  }

  entry_cases :
      (price : Option ℤ) (flag : Bool)
      → (ltb 0 (sweep_for o opp).left && not (sweep_for o opp).blocked) ≡ flag
      → resting_price o ≡ price
      → (prepare_submit opp o >>= λ p. commit_submit side own opp seq p)
        ≡ some (entered side own opp seq o)
  unfolding commit_submit entered rest_price prepared_at drop_empty_levels_from_front
  entry_cases none true f e =
      rw (prepare_submit-sweep (opposite side) opp o w v, f, e, find_node-head o [], committed)
  entry_cases none false f e =
      rw (prepare_submit-sweep (opposite side) opp o w v, f, e, find_node-head o [], committed)
  entry_cases (some p) false f e =
      rw (prepare_submit-sweep (opposite side) opp o w v, f, e, find_node-head o [], committed)
  entry_cases (some p) true f e = rw (
    prepare_submit-sweep (opposite side) opp o w v,
    f,
    e,
    find_node-head o [],
    committed,
    rest_order-rested side p own o (aggressor_after o seq (sweep_for o opp)) (prepared_at p)
        aggressor_id refl refl refl refl,
  )

  -- For an order whose quantity fits 64 bits and a well-formed opposite side, prepareSubmit and
  -- commitSubmit break no precondition, meet no dangling iterator, and carry out the specified entry:
  -- sides, index, fills, result and sequence.
  pub prepare-commit-entered :
      (prepare_submit opp o >>= λ p. commit_submit side own opp seq p)
      ≡ some (entered side own opp seq o)
  prepare-commit-entered = entry_cases (resting_price o) _ refl refl
