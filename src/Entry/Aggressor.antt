-- ===== src/Entry/Aggressor.antt =====
-- What a sweep does to the aggressor: how much it takes, and when the rest may come to rest.
use multithreaded_exchange_s.Order.{
  Kind, resting_price, display_size, visible_qty, Order, on_partial_fill,
}
use multithreaded_exchange_s.Prelude.Word.{sub64_exact, u64_mod}
use multithreaded_exchange_s.Strategy.Simulation.{planned}
use multithreaded_exchange_s.Strategy.Match.{Take}
use multithreaded_exchange_s.PriceLevel.{PriceLevel}
use multithreaded_exchange_s.Types.{Side}
use multithreaded_exchange_s.Strategy.{PlannedFill}
use multithreaded_exchange_s.Prelude.Int.{ℤ}
use multithreaded_exchange_s.Prelude.{ℕ, ◌+◌, ◌≤◌, ◌<◌, ◌≡◌, refl, List, [], ◌∷◌, ◌++◌, map, arith}
use multithreaded_exchange_s.Matching.{Sweeps, Swept, spent, exhausted, uncrossed, own_met, swept}
use multithreaded_exchange_s.Matching.Commit.{consume}
use multithreaded_exchange_s.Strategy.Facts.{sum_takes, Matches-left, RestsAt}

unfoldable pub sum_fills : List PlannedFill → ℕ
sum_fills [] = 0
sum_fills (f ∷ fs) = f.quantity + sum_fills fs

pub sum_fills-append :
    (xs ys : List PlannedFill) → sum_fills (xs ++ ys) ≡ sum_fills xs + sum_fills ys
unfolding sum_fills
sum_fills-append [] ys = omega arith
sum_fills-append (x ∷ xs) ys = omega (arith, sum_fills-append xs ys)

pub sum_fills-planned : (p : ℤ) (ts : List Take) → sum_fills (map (planned p) ts) ≡ sum_takes ts
unfolding sum_fills sum_takes
sum_fills-planned p [] = refl
sum_fills-planned p (t ∷ ts) = omega (arith, sum_fills-planned p ts)

-- What the sweep takes and what it leaves make up what was wanted.
pub Sweeps-total :
    {by : Order} {a : ℕ} {ls : List PriceLevel} {s : Swept}
    → Sweeps by a ls s
    → s.left + sum_fills s.fills ≡ a
unfolding sum_fills
Sweeps-total (spent a ls z) = omega arith
Sweeps-total (exhausted a) = omega arith
Sweeps-total (uncrossed a l ls x) = omega arith
Sweeps-total (own_met a l ls m pos x run b) =
    omega (arith, sum_fills-planned l.price m.takes, Matches-left run)
Sweeps-total (swept a l ls m r pos x run b rest) = omega (
  arith,
  sum_fills-append (map (planned l.price) m.takes) r.fills,
  sum_fills-planned l.price m.takes,
  Matches-left run,
  Sweeps-total rest,
)

pub consume-id : (ag : Order) (fs : List PlannedFill) → (consume ag fs).id ≡ ag.id
unfolding consume on_partial_fill
consume-id ag [] = refl
consume-id ag (f ∷ fs) = consume-id (on_partial_fill ag f.quantity) fs

pub consume-remaining :
    (ag : Order) (fs : List PlannedFill)
    → ag.remaining < u64_mod
    → sum_fills fs ≤ ag.remaining
    → (consume ag fs).remaining + sum_fills fs ≡ ag.remaining
unfolding consume sum_fills on_partial_fill
consume-remaining ag [] w h = omega arith
consume-remaining ag (f ∷ fs) w h =
    let exact = sub64_exact ag.remaining f.quantity w (omega arith) in
    omega (
      arith,
      exact,
      consume-remaining (on_partial_fill ag f.quantity) fs (omega (arith, exact))
          (omega (arith, exact)),
    )

partial_kind :
    (side : Side) (p : ℤ) (ag : Order) (q : ℕ) (k : Kind)
    → ag.kind ≡ k
    → RestsAt side p ag
    → q < visible_qty ag
    → RestsAt side p (on_partial_fill ag q)
      × (visible_qty (on_partial_fill ag q) + q ≡ visible_qty ag)
unfolding on_partial_fill visible_qty display_size resting_price
partial_kind side p ag q (Kind.limit l) e v h = ground (arith, sub64_exact ag.remaining q)
partial_kind side p ag q Kind.market e v h = ground (arith, sub64_exact ag.remaining q)
partial_kind side p ag q (Kind.iceberg l d w) e v h =
    ground (arith, sub64_exact ag.remaining q, sub64_exact w q)

-- An order that trades less than it shows may rest with the remainder.
pub consume-RestsAt :
    (side : Side) (p : ℤ) (ag : Order) (fs : List PlannedFill)
    → RestsAt side p ag
    → sum_fills fs < visible_qty ag
    → RestsAt side p (consume ag fs)
unfolding consume sum_fills
consume-RestsAt side p ag [] v h = v
consume-RestsAt side p ag (f ∷ fs) v h =
    let (v', shown) = partial_kind side p ag f.quantity ag.kind refl v (omega arith) in
    consume-RestsAt side p (on_partial_fill ag f.quantity) fs v' (omega (arith, shown))
