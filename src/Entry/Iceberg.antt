-- ===== src/Entry/Iceberg.antt =====
-- Iceberg orders on entry. commitSubmit of core/book.cpp takes the aggressor's fills from its display
-- tranche and never replenishes it.
use multithreaded_exchange_s.Matching.{Swept, sweep-Sweeps}
use multithreaded_exchange_s.Entry.{aggressor_after, rest_price, sweep_for, entered}
use mathlib.Core.Option.{some-injective}
use multithreaded_exchange_s.Prelude.Word.{sub64_sub, sub64-lt, sub64, u64_mod}
use multithreaded_exchange_s.Order.{
  kind_fill, Kind, assign_sequence, Order, resting_price, on_partial_fill, visible_qty,
}
use multithreaded_exchange_s.Prelude.Int.{eqb_ℤ, ℤ}
use multithreaded_exchange_s.Types.{before, opposite, Side}
use multithreaded_exchange_s.Order.Lifecycle.{IsLive}
use multithreaded_exchange_s.Strategy.Facts.{RestsAt}
use multithreaded_exchange_s.Strategy.{PlannedFill}
use multithreaded_exchange_s.PriceLevel.{PriceLevel, make_level, enqueue}
use multithreaded_exchange_s.Prelude.{
  ℕ, ◌+◌, ◌-◌, ◌%◌, ◌≤◌, ◌<◌, ◌≡◌, sym, ap, subst, ◌∙◌, inl, inr, false, some, List, [], ◌∷◌, ◌++◌,
  arith, ltb, ltb→lt, Bool-cases, All, ◌>>=◌,
}
use multithreaded_exchange_s.Entry.Aggressor.{sum_fills, Sweeps-total, consume-remaining}
use multithreaded_exchange_s.Entry.Valid.{TradesClean}
use multithreaded_exchange_s.Entry.Refine.{LevelsOk-live, prepare-commit-entered}
use multithreaded_exchange_s.Validity.{SideOk, LevelOk}
use multithreaded_exchange_s.Validity.Rest.{rested, with_rested}
use multithreaded_exchange_s.OrderBook.{OrderBook}
use multithreaded_exchange_s.Book.Commit.{Committed, commit_submit}
use multithreaded_exchange_s.Book.Plan.{prepare_submit}
use multithreaded_exchange_s.Matching.Commit.{consume}

-- Against a well-formed side, an order that shows all it has trades less than it shows or all that
-- it has.
pub plain-TradesClean :
    (side : Side) (o : Order) (opp : OrderBook)
    → SideOk side opp
    → visible_qty o ≡ o.remaining
    → TradesClean o opp
plain-TradesClean side o opp v plain =
    let total =
      Sweeps-total
        (sweep-Sweeps o opp.levels o.remaining (LevelsOk-live side opp.levels v.levels)) in
    elim (Bool-cases (ltb (sum_fills (sweep_for o opp).fills) o.remaining)) [
      | inl less ↦
          inl (omega (arith, plain, ltb→lt (sum_fills (sweep_for o opp).fills) o.remaining less))
      | inr all ↦ inr (ground (arith, total))
    ]

consume-iceberg :
    (ag : Order) (fs : List PlannedFill) (l : ℤ) (d v : ℕ)
    → ag.kind ≡ Kind.iceberg l d v
    → v < u64_mod
    → sum_fills fs ≤ u64_mod
    → (consume ag fs).kind ≡ Kind.iceberg l d ((v + u64_mod - sum_fills fs) % u64_mod)
unfolding consume sum_fills on_partial_fill
consume-iceberg ag [] l d v e h k = e ∙ ap (Kind.iceberg l d) (omega arith)
consume-iceberg ag (f ∷ fs) l d v e h k =
    consume-iceberg (on_partial_fill ag f.quantity) fs l d (sub64 v f.quantity)
      (ap (λ x. kind_fill x f.quantity) e) (sub64-lt v f.quantity) (omega arith)
    ∙ ap (Kind.iceberg l d) (sub64_sub v f.quantity (sum_fills fs) h k)

-- What such an iceberg shows is nothing, or more than it has.
overshoots :
    (a : Order) (l : ℤ) (d v t r : ℕ)
    → a.kind ≡ Kind.iceberg l d ((v + u64_mod - t) % u64_mod)
    → a.remaining + t ≡ r
    → r < u64_mod
    → v ≤ t
    → t < r
    → ¬ IsLive a
unfolding visible_qty
overshoots a l d v t r e rem w h k live =
    let shown : visible_qty a ≡ (v + u64_mod - t) % u64_mod = ground arith in
    absurd (omega (arith, live.shows, live.shown, shown, rem))

last-IsLive :
    (side : Side) (p : ℤ) (os : List Order) (a : Order)
    → All (RestsAt side p) (os ++ a ∷ [])
    → IsLive a
last-IsLive side p [] a h = (h.0).live
last-IsLive side p (o ∷ os) a h = last-IsLive side p os a h.1

rested-IsLive :
    (side : Side) (p : ℤ) (a : Order) (ls : List PriceLevel)
    → All (LevelOk side) (rested side p a ls)
    → IsLive a
unfolding rested enqueue make_level
rested-IsLive side p a [] h = last-IsLive side p [] a (h.0).resting
rested-IsLive side p a (l ∷ ls) h = elim (Bool-cases (before side l.price p)) [
  | inl b ↦ rested-IsLive side p a ls (rw b at h).1
  | inr b ↦ elim (Bool-cases (eqb_ℤ l.price p)) [
    | inl e ↦ last-IsLive side l.price l.orders a ((rw (b, e) at h).0).resting
    | inr e ↦ last-IsLive side p [] a ((rw (b, e) at h).0).resting
  ]
]

iceberg-visible : (o : Order) (l : ℤ) (d v : ℕ) → o.kind ≡ Kind.iceberg l d v → visible_qty o ≡ v
unfolding visible_qty
iceberg-visible o l d v e = ground arith

iceberg-rests :
    (o : Order) (l : ℤ) (d v : ℕ) (s : Swept)
    → o.kind ≡ Kind.iceberg l d v
    → 0 < s.left
    → s.blocked ≡ false
    → rest_price o s ≡ some l
unfolding rest_price resting_price
iceberg-rests o l d v s e h b = ground arith

own-rested :
    (side : Side) (own opp : OrderBook) (seq : ℕ) (o : Order) (l : ℤ)
    → rest_price o (sweep_for o opp) ≡ some l
    → (entered side own opp seq o).own
      ≡ with_rested side l (aggressor_after o seq (sweep_for o opp)) own
unfolding entered
own-rested side own opp seq o l e = rw e

-- Where the opposite side is well formed and a live iceberg trades at least what it shows, but not
-- all that it has, and does not meet its own account's orders, the side that prepareSubmit and
-- commitSubmit leave it on is not well formed.
pub iceberg_breaks :
    (side : Side) (own opp : OrderBook) (seq : ℕ) (o : Order) (l : ℤ) (d v : ℕ) (c : Committed)
    → SideOk (opposite side) opp
    → IsLive o
    → o.kind ≡ Kind.iceberg l d v
    → v ≤ sum_fills (sweep_for o opp).fills
    → sum_fills (sweep_for o opp).fills < o.remaining
    → (sweep_for o opp).blocked ≡ false
    → (prepare_submit opp o >>= λ p. commit_submit side own opp seq p) ≡ some c
    → ¬ SideOk side c.own
unfolding assign_sequence
iceberg_breaks side own opp seq o l d v c opp_ok live kind traded rest open_way e ok =
    let s = sweep_for o opp in
    let a = aggressor_after o seq s in
    let total = Sweeps-total (
      sweep-Sweeps o opp.levels o.remaining
        (LevelsOk-live (opposite side) opp.levels opp_ok.levels)) in
    let rests = iceberg-rests o l d v s kind (omega (arith, total)) open_way in
    let same : c ≡ entered side own opp seq o =
      some-injective _ _ (sym e ∙ prepare-commit-entered side own opp seq o live.fits opp_ok) in
    let joined : c.own ≡ with_rested side l a own =
      ap (λ x. x.own) same ∙ own-rested side own opp seq o l rests in
    let small : v < u64_mod = omega (arith, iceberg-visible o l d v kind, live.shown, live.fits) in
    overshoots a l d v (sum_fills s.fills) o.remaining
      (consume-iceberg (assign_sequence o seq) s.fills l d v kind small (omega (arith, live.fits)))
      (consume-remaining (assign_sequence o seq) s.fills live.fits (omega arith)) live.fits traded
      rest
      (rested-IsLive side l a own.levels
        (subst (λ x. All (LevelOk side) x.levels) joined ok.levels))
