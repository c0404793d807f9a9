-- ===== src/Entry/Fills.antt =====
-- What the fills of a submit are worth: prices, accounts and quantities.
use multithreaded_exchange_s.Entry.Submit.{submit-entered, BookOk-SidesOk, entry_of}
use multithreaded_exchange_s.Book.{Submitted, submit}
use multithreaded_exchange_s.Validity.{count_levels, BookOk}
use multithreaded_exchange_s.Order.Lifecycle.{IsLive}
use multithreaded_exchange_s.Entry.{rest_price, result_after, sweep_for, entered}
use multithreaded_exchange_s.Prelude.Word.{sub64_exact, u64_mod}
use multithreaded_exchange_s.Book.Types.{SubmitResult, Book, Fill, side_of}
use multithreaded_exchange_s.Strategy.Simulation.{planned}
use multithreaded_exchange_s.Strategy.Facts.{OthersOnly, Matches-others}
use multithreaded_exchange_s.Strategy.Match.{Take}
use multithreaded_exchange_s.PriceLevel.{PriceLevel}
use multithreaded_exchange_s.Order.{crosses, Order, assign_sequence}
use multithreaded_exchange_s.Prelude.Int.{ℤ}
use multithreaded_exchange_s.Types.{opposite}
use multithreaded_exchange_s.Prelude.{
  ℕ, ◌+◌, ◌≤◌, ◌<◌, ◌≡◌, refl, sym, subst, ◌∙◌, ◌≢◌, ◌⊎◌, inl, inr, Bool, true, Option, none, some,
  List, [], ◌∷◌, map, arith, All, All-append,
}
use multithreaded_exchange_s.Entry.Aggressor.{sum_fills, Sweeps-total, consume-remaining}
use multithreaded_exchange_s.Entry.Valid.{TradesClean}
use multithreaded_exchange_s.Entry.Refine.{LevelsOk-live}
use multithreaded_exchange_s.Matching.{
  Sweeps, Swept, spent, exhausted, uncrossed, own_met, swept, sweep-Sweeps,
}
use multithreaded_exchange_s.Book.Commit.{fill_of}
use multithreaded_exchange_s.Strategy.{PlannedFill}

-- A fill that the order may make: at a price that it crosses, of some quantity, and not with its
-- own account.
abbrev pub FairFill : Order → PlannedFill → Type 0
FairFill o f = (crosses o f.price ≡ true) × (0 < f.quantity) × (f.resting_account ≢ o.account)

planned-FairFill :
    (o : Order) (p : ℤ) (ts : List Take)
    → crosses o p ≡ true
    → OthersOnly o.account ts
    → All (FairFill o) (map (planned p) ts)
planned-FairFill o p [] x h = tt
planned-FairFill o p (t ∷ ts) x h = ((x, (h.0).1, (h.0).0), planned-FairFill o p ts x h.1)

Sweeps-FairFill :
    {by : Order} {a : ℕ} {ls : List PriceLevel} {s : Swept}
    → Sweeps by a ls s
    → All (FairFill by) s.fills
Sweeps-FairFill (spent a ls z) = tt
Sweeps-FairFill (exhausted a) = tt
Sweeps-FairFill (uncrossed a l ls x) = tt
Sweeps-FairFill {by} (own_met a l ls m pos x run b) =
    planned-FairFill by l.price m.takes x (Matches-others run)
Sweeps-FairFill {by} (swept a l ls m r pos x run b rest) =
    All-append (FairFill by) (map (planned l.price) m.takes) r.fills
      (planned-FairFill by l.price m.takes x (Matches-others run)) (Sweeps-FairFill rest)

-- The same of a fill as it is reported.
abbrev pub Fair : Order → Fill → Type 0
Fair o f =
    (f.aggressor_id ≡ o.id)
    × (f.aggressor_side ≡ o.side)
    × (f.aggressor_account ≡ o.account)
    × (crosses o f.price ≡ true)
    × (0 < f.quantity)
    × (f.resting_account ≢ f.aggressor_account)

fill_of-Fair :
    (o : Order) (seq : ℕ) (fs : List PlannedFill)
    → All (FairFill o) fs
    → All (Fair o) (map (fill_of (assign_sequence o seq)) fs)
unfolding assign_sequence
fill_of-Fair o seq [] h = tt
fill_of-Fair o seq (f ∷ fs) h =
    ((refl, refl, refl, (h.0).0, (h.0).1, (h.0).2), fill_of-Fair o seq fs h.1)

unfoldable pub fills_quantity : List Fill → ℕ
fills_quantity [] = 0
fills_quantity (f ∷ fs) = f.quantity + fills_quantity fs

fills_quantity-fill_of :
    (o : Order) (fs : List PlannedFill) → fills_quantity (map (fill_of o) fs) ≡ sum_fills fs
unfolding fills_quantity sum_fills
fills_quantity-fill_of o [] = refl
fills_quantity-fill_of o (f ∷ fs) = omega (arith, fills_quantity-fill_of o fs)

result_fills :
    (o a : Order) (fs : List Fill) (t : ℕ) (b : Bool) (p : Option ℤ)
    → ((result_after a fs t b p).fills ≡ fs) × ((result_after a fs t b p).filled_qty ≡ t)
result_fills o a fs t b none = (refl, refl)
result_fills o a fs t b (some p) = (refl, refl)

pub record QuantityKept (o : Order) (r : SubmitResult) : Type 0 where
  pub summed : r.filled_qty ≡ fills_quantity r.fills
  pub bounded : r.filled_qty ≤ o.remaining
  pub rest : (r.resting_qty ≡ 0) ⊎ (r.resting_qty + r.filled_qty ≡ o.remaining)

result_quantity :
    (o a : Order) (fs : List Fill) (t : ℕ) (blocked : Bool) (p : Option ℤ)
    → t ≡ fills_quantity fs
    → t ≤ o.remaining
    → a.remaining + t ≡ o.remaining
    → QuantityKept o (result_after a fs t blocked p)
result_quantity o a fs t blocked none e h k = record { summed = e; bounded = h; rest = inl refl }
result_quantity o a fs t blocked (some p) e h k = record { summed = e; bounded = h; rest = inr k }

module _ (b : Book) (o : Order) (v : BookOk b) where
  run_of :
      Sweeps o o.remaining
        (side_of (opposite o.side) b).levels
        (sweep_for o (side_of (opposite o.side) b))
  run_of =
      sweep-Sweeps o _ o.remaining
        (LevelsOk-live (opposite o.side) _ (BookOk-SidesOk o.side b v).opp_side.levels)

  entry-Fair : All (Fair o) (entry_of b o).result.fills
  unfolding entered
  entry-Fair =
      rw ((result_fills o _ _ _ _ _).0) (fill_of-Fair o b.next_sequence _ (Sweeps-FairFill run_of))

  entry-quantity : o.remaining < u64_mod → QuantityKept o (entry_of b o).result
  unfolding entered assign_sequence
  entry-quantity w =
      let s = sweep_for o (side_of (opposite o.side) b) in
      let total = Sweeps-total run_of in
      let traded = sub64_exact o.remaining s.left w (omega (arith, total)) in
      result_quantity o _ _ _ s.blocked (rest_price o s)
        (traded
          ∙ omega (arith, total)
          ∙ sym (fills_quantity-fill_of (assign_sequence o b.next_sequence) s.fills))
        (omega (arith, traded))
        (omega (
          arith,
          traded,
          total,
          consume-remaining (assign_sequence o b.next_sequence) s.fills w (omega (arith, total)),
        ))

returned-injective :
    {r r' : SubmitResult} {b b' : Book}
    → some (Submitted.returned r b) ≡ some (Submitted.returned r' b')
    → r ≡ r'
returned-injective h = ground arith

-- What a live order with a new id gets that a well-formed book accepts, if it trades less than it
-- shows or all that it has: every fill names it, is at a price that it crosses, has a positive
-- quantity and is not against an order of its own account. The filled quantity is the sum of the
-- fills and at most the order's, and what rests is the remainder or nothing.
pub submit-Fair :
    (b : Book) (o : Order) (r : SubmitResult) (b' : Book)
    → BookOk b
    → IsLive o
    → count_levels o.id b.bids.levels + count_levels o.id b.asks.levels ≡ 0
    → TradesClean o (side_of (opposite o.side) b)
    → submit b (some o) ≡ some (Submitted.returned r b')
    → All (Fair o) r.fills × QuantityKept o r
submit-Fair b o r b' v live new c e =
    let same = returned-injective (sym (submit-entered b o v live new c).0 ∙ e) in
    (
      subst (λ x. All (Fair o) x.fills) same (entry-Fair b o v),
      subst (QuantityKept o) same (entry-quantity b o v live.fits),
    )
