-- ===== src/Strategy/Facts.antt =====
-- What a run of the matching keeps and what it gives.
use multithreaded_exchange_s.Order.Lifecycle.{
  fill-refresh-IsLive, IsLive, on_partial_fill-FillEffect,
}
use multithreaded_exchange_s.Order.{
  visible_qty, Kind, Order, is_filled, on_partial_fill, resting_price, needs_replenish, replenish,
}
use multithreaded_exchange_s.Prelude.Int.{ℤ}
use multithreaded_exchange_s.Prelude.{
  true, ℕ, ◌+◌, ◌<◌, ◌≡◌, ◌≢◌, false, List, [], ◌∷◌, arith, refl, ap, some, All-append, ◌≤◌, All,
  inl, inr, Bool-cases,
}
use multithreaded_exchange_s.Types.{Side}
use multithreaded_exchange_s.Queue.{sum_remaining}
use multithreaded_exchange_s.Queue.Count.{sum_remaining-append}
use multithreaded_exchange_s.Queue.Ids.{count_node, count_id, count_node-append, is_id}
use multithreaded_exchange_s.Strategy.Match.{
  Take, Matched, Matches, ended, met_own, traded, settled, gone_with, settled-All-IsLive,
}

unfoldable pub sum_takes : List Take → ℕ
sum_takes [] = 0
sum_takes (t ∷ ts) = t.quantity + sum_takes ts

-- What is taken and what is left make up what was wanted.
pub Matches-left :
    {acct a : ℕ} {os : List Order} {m : Matched}
    → Matches acct a os m
    → m.left + sum_takes m.takes ≡ a
unfolding sum_takes
Matches-left (ended a os h) = omega arith
Matches-left (met_own a o os h) = omega arith
Matches-left (traded a q o os r ne v live pos le shown run) = omega (arith, Matches-left run)

pub Matches-IsLive :
    {acct a : ℕ} {os : List Order} {m : Matched}
    → Matches acct a os m
    → All IsLive os
    → All IsLive m.rest
Matches-IsLive (ended a os h) v = v
Matches-IsLive (met_own a o os h) v = v
Matches-IsLive (traded a q o os r ne v live pos le shown run) all =
    Matches-IsLive run (settled-All-IsLive o q os v shown live)

-- A sweep that is not stopped by the aggressor's own order stops for lack of quantity or orders.
pub Matches-exhausts :
    {acct a : ℕ} {os : List Order} {m : Matched}
    → Matches acct a os m
    → m.blocked ≡ false
    → 0 < m.left
    → m.rest ≡ []
Matches-exhausts (ended a os (inl z)) b h = absurd (omega arith)
Matches-exhausts (ended a os (inr e)) b h = e
Matches-exhausts (met_own a o os e) b h = absurd (cc)
Matches-exhausts (traded a q o os r ne v live pos le shown run) b h = Matches-exhausts run b h

-- No execution is against an order of the aggressor's account, and none is empty.
abbrev pub OthersOnly : ℕ → List Take → Type 0
OthersOnly acct = All (λ t. (t.account ≢ acct) × (0 < t.quantity))

pub Matches-others :
    {acct a : ℕ} {os : List Order} {m : Matched} → Matches acct a os m → OthersOnly acct m.takes
Matches-others (ended a os h) = tt
Matches-others (met_own a o os e) = tt
Matches-others (traded a q o os r ne v live pos le shown run) = ((ne, pos), Matches-others run)

settled-sum :
    (o : Order) (os : List Order) → sum_remaining (settled o os) ≡ o.remaining + sum_remaining os
unfolding settled is_filled sum_remaining replenish
settled-sum o os = ground (arith, sum_remaining-append os (replenish o ∷ []))

-- The quantity that leaves the queue is the quantity that the executions take.
pub Matches-sum :
    {acct a : ℕ} {os : List Order} {m : Matched}
    → Matches acct a os m
    → sum_remaining m.rest + sum_takes m.takes ≡ sum_remaining os
unfolding sum_takes sum_remaining
Matches-sum (ended a os h) = omega arith
Matches-sum (met_own a o os e) = omega arith
Matches-sum (traded a q o os r ne v live pos le shown run) = omega (
  arith,
  Matches-sum run,
  settled-sum (on_partial_fill o q) os,
  (on_partial_fill-FillEffect o q v shown).remaining,
)

settled-count :
    (j : ℕ) (o : Order) (os : List Order) (ids : List ℕ)
    → count_node j (settled o os) + count_id j (gone_with o ids)
      ≡ is_id o.id j + count_node j os + count_id j ids
unfolding settled count_node count_id replenish
settled-count j o os ids = elim (Bool-cases (is_filled o)) [
  | inl e ↦ rw e (omega arith)
  | inr e ↦ elim (Bool-cases (needs_replenish o)) [
    | inl n ↦ rw (e, n) (omega (arith, count_node-append j os (replenish o ∷ [])))
    | inr n ↦ rw (e, n) (omega arith)
  ]
]

-- Every id that leaves the queue is listed as gone, as often as it leaves.
pub Matches-count :
    (j : ℕ) {acct a : ℕ} {os : List Order} {m : Matched}
    → Matches acct a os m
    → count_node j m.rest + count_id j m.gone ≡ count_node j os
unfolding count_node count_id on_partial_fill
Matches-count j (ended a os h) = omega arith
Matches-count j (met_own a o os e) = omega arith
Matches-count j (traded a q o os r ne v live pos le shown run) =
    omega (arith, Matches-count j run, settled-count j (on_partial_fill o q) os r.gone)

-- A resting order of a level: live, and entitled to rest on that side at that price.
pub record RestsAt (side : Side) (p : ℤ) (o : Order) : Type 0 where
  pub live : IsLive o
  pub rests : resting_price o ≡ some p
  pub on_side : o.side ≡ side

rests_kind :
    (o : Order) (q : ℕ) (p : ℤ) (k : Kind)
    → o.kind ≡ k
    → resting_price o ≡ some p
    → (resting_price (on_partial_fill o q) ≡ some p)
      × (resting_price (replenish (on_partial_fill o q)) ≡ some p)
unfolding resting_price on_partial_fill replenish
rests_kind o q p (Kind.limit l) e h = ground arith
rests_kind o q p Kind.market e h = ground arith
rests_kind o q p (Kind.iceberg l d v) e h = ground arith

settled-RestsAt :
    (side : Side) (p : ℤ) (o : Order) (q : ℕ) (os : List Order)
    → RestsAt side p o
    → q ≤ visible_qty o
    → All (RestsAt side p) os
    → All (RestsAt side p) (settled (on_partial_fill o q) os)
unfolding settled is_filled replenish on_partial_fill
settled-RestsAt side p o q os v h all =
    let f = on_partial_fill-FillEffect o q v.live h in
    let r = rests_kind o q p o.kind refl v.rests in
    elim (Bool-cases (is_filled (on_partial_fill o q))) [
      | inl e ↦ rw e all
      | inr e ↦
          let lt : q < o.remaining = ground (arith, f.remaining) in
          let ok = fill-refresh-IsLive o q v.live h lt in
          elim (Bool-cases (needs_replenish (on_partial_fill o q))) [
            | inl n ↦
                rw (e, n)
                  (All-append (RestsAt side p) os _ all
                    (record { live = rw n at ok; rests = r.1; on_side = v.on_side }, tt))
            | inr n ↦
                rw (e, n) (record { live = rw n at ok; rests = r.0; on_side = v.on_side }, all)
          ]
    ]

-- A sweep leaves every order of the queue at its price and on its side.
pub Matches-RestsAt :
    (side : Side) (p : ℤ) {acct a : ℕ} {os : List Order} {m : Matched}
    → Matches acct a os m
    → All (RestsAt side p) os
    → All (RestsAt side p) m.rest
Matches-RestsAt side p (ended a os h) all = all
Matches-RestsAt side p (met_own a o os e) all = all
Matches-RestsAt side p (traded a q o os r ne v live pos le shown run) all =
    Matches-RestsAt side p run (settled-RestsAt side p o q os all.0 shown all.1)

-- A sweep of a level with orders takes something, unless it is stopped at once.
pub Matches-trades :
    {acct a : ℕ} {os : List Order} {m : Matched}
    → Matches acct a os m
    → m.blocked ≡ false
    → 0 < a
    → 0 < sum_remaining os
    → 0 < sum_takes m.takes
unfolding sum_takes sum_remaining
Matches-trades (ended a os (inl z)) b h k = absurd (omega arith)
Matches-trades (ended a os (inr e)) b h k = absurd (omega (arith, ap sum_remaining e))
Matches-trades (met_own a o os e) b h k = absurd (cc)
Matches-trades (traded a q o os r ne v live pos le shown run) b h k = omega arith

-- A sweep that is stopped by the aggressor's own order leaves that order resting.
pub Matches-blocked :
    {acct a : ℕ} {os : List Order} {m : Matched}
    → Matches acct a os m
    → m.blocked ≡ true
    → m.rest ≢ []
Matches-blocked (ended a os h) b e = absurd (cc)
Matches-blocked (met_own a o os h) b e = absurd (cc)
Matches-blocked (traded a q o os r ne v live pos le shown run) b e = Matches-blocked run b e
