-- ===== src/Entry/Valid.antt =====
-- core/book.cpp: the two sides of a book before and after an order enters it.
use multithreaded_exchange_s.Strategy.Facts.{RestsAt}
use multithreaded_exchange_s.Order.{
  display_size, assign_sequence, kind_crosses, kind_resting_price, limit_crosses, resting_price,
  Kind, visible_qty, Order, crosses,
}
use multithreaded_exchange_s.Matching.{Sweeps, sweep-Sweeps}
use multithreaded_exchange_s.Types.{before, opposite, Side}
use multithreaded_exchange_s.Prelude.Int.{ℤ}
use multithreaded_exchange_s.Order.Lifecycle.{IsLive}
use multithreaded_exchange_s.Prelude.{
  ℕ, ◌+◌, ◌≤◌, ◌<◌, ◌≡◌, refl, sym, subst, ◌∙◌, ◌⊎◌, inl, inr, true, false, Option, none, some,
  arith, ◌==◌, ==_iff, Bool-cases, All-map,
}
use multithreaded_exchange_s.Entry.{
  entered, sweep_for, rest_price, aggressor_after, opposite_after, own_after,
}
use multithreaded_exchange_s.Entry.Aggressor.{Sweeps-total, consume-id, sum_fills, consume-RestsAt}
use multithreaded_exchange_s.Entry.Refine.{LevelsOk-live}
use multithreaded_exchange_s.Validity.{SideOk, Ahead, Clear, count_levels}
use multithreaded_exchange_s.Validity.Rest.{rested-price, rested-count, rested-SideOk}
use multithreaded_exchange_s.Validity.Swept.{
  Sweeps-SideOk, Sweeps-clear, Sweeps-price, drop_empty-All, drop_empty-count,
}
use multithreaded_exchange_s.Validity.Ids.{Sweeps-count}
use multithreaded_exchange_s.OrderBook.{OrderBook}
use multithreaded_exchange_s.Queue.Ids.{is_id}

-- The two sides as an entering order sees them.
pub record SidesOk (side : Side) (own opp : OrderBook) : Type 0 where
  pub own_side : SideOk side own
  pub opp_side : SideOk (opposite side) opp
  pub unique : (j : ℕ) → count_levels j own.levels + count_levels j opp.levels ≤ 1
  pub clear : Clear side own.levels opp.levels

-- An order that may enter: live, with a new id, and on that side.
pub record MayEnter (side : Side) (own opp : OrderBook) (o : Order) : Type 0 where
  pub live : IsLive o
  pub on_side : o.side ≡ side
  pub new : count_levels o.id own.levels + count_levels o.id opp.levels ≡ 0

-- The order trades less than it shows, or all that it has.
abbrev pub TradesClean : Order → OrderBook → Type 0
TradesClean o opp =
    (sum_fills (sweep_for o opp).fills < visible_qty o)
    ⊎ (sum_fills (sweep_for o opp).fills ≡ o.remaining)

limit_mono :
    (side : Side) (l p q : ℤ)
    → before (opposite side) p q ≡ true
    → limit_crosses side l p ≡ false
    → limit_crosses side l q ≡ false
unfolding opposite
limit_mono Side.buy l p q b h = ground arith
limit_mono Side.sell l p q b h = ground arith

limit_before :
    (side : Side) (l q : ℤ) → limit_crosses side l q ≡ false → before (opposite side) l q ≡ true
unfolding opposite
limit_before Side.buy l q h = ground arith
limit_before Side.sell l q h = ground arith

crosses_kind :
    (o : Order) (k : Kind) (s : Side) (q : ℤ)
    → o.kind ≡ k
    → o.side ≡ s
    → crosses o q ≡ kind_crosses k s q
unfolding crosses
crosses_kind o k s q e f = cc

mono_kind :
    (side : Side) (k : Kind) (p q : ℤ)
    → before (opposite side) p q ≡ true
    → kind_crosses k side p ≡ false
    → kind_crosses k side q ≡ false
mono_kind side (Kind.limit l) p q b h = limit_mono side l p q b h
mono_kind side Kind.market p q b h = absurd (cc)
mono_kind side (Kind.iceberg l d v) p q b h = limit_mono side l p q b h

-- Past a price that it does not cross an order crosses none.
pub crosses_mono :
    (side : Side) (o : Order) (p q : ℤ)
    → o.side ≡ side
    → before (opposite side) p q ≡ true
    → crosses o p ≡ false
    → crosses o q ≡ false
crosses_mono side o p q on b h =
    crosses_kind o o.kind side q refl on
    ∙ mono_kind side o.kind p q b (sym (crosses_kind o o.kind side p refl on) ∙ h)

rest_kind :
    (side : Side) (k : Kind) (p q : ℤ)
    → kind_resting_price k ≡ some p
    → kind_crosses k side q ≡ false
    → before (opposite side) p q ≡ true
rest_kind side (Kind.limit l) p q e h =
    subst (λ r. before (opposite side) r q ≡ true) (ground arith) (limit_before side l q h)
rest_kind side Kind.market p q e h = absurd (cc)
rest_kind side (Kind.iceberg l d v) p q e h =
    subst (λ r. before (opposite side) r q ≡ true) (ground arith) (limit_before side l q h)

-- An order rests clear of the prices that it does not cross.
rests-clear :
    (side : Side) (o : Order) (p q : ℤ)
    → o.side ≡ side
    → resting_price o ≡ some p
    → crosses o q ≡ false
    → before (opposite side) p q ≡ true
unfolding resting_price
rests-clear side o p q on e h =
    rest_kind side o.kind p q e (sym (crosses_kind o o.kind side q refl on) ∙ h)

module _ (side : Side) (own opp : OrderBook) (seq : ℕ) (o : Order) (v : SidesOk side own opp)
    (h : MayEnter side own opp o) (c : TradesClean o opp) where
  run : Sweeps o o.remaining opp.levels (sweep_for o opp)
  run =
      sweep-Sweeps o opp.levels o.remaining
        (LevelsOk-live (opposite side) opp.levels v.opp_side.levels)

  opp_ok : SideOk (opposite side) (opposite_after opp (sweep_for o opp))
  opp_ok = Sweeps-SideOk (opposite side) opp run v.opp_side (λ j. omega (arith, v.unique j))

  opp_count :
      (j : ℕ)
      → count_levels j (opposite_after opp (sweep_for o opp)).levels ≤ count_levels j opp.levels
  opp_count j = omega (arith, drop_empty-count j (sweep_for o opp).levels, Sweeps-count j run)

  -- Prices on the opposite side stay where they were.
  opp-Ahead :
      (p : ℤ)
      → Ahead (opposite side) p opp.levels
      → Ahead (opposite side) p (opposite_after opp (sweep_for o opp)).levels
  opp-Ahead p a =
      drop_empty-All _ (sweep_for o opp).levels
        (Sweeps-price (λ q. before (opposite side) p q ≡ true) run a)

  a : Order
  a = aggressor_after o seq (sweep_for o opp)

  total : (sweep_for o opp).left + sum_fills (sweep_for o opp).fills ≡ o.remaining
  total = Sweeps-total run

  shows_more : 0 < (sweep_for o opp).left → sum_fills (sweep_for o opp).fills < visible_qty o
  shows_more left = elim c [ inl less ↦ less | inr all ↦ absurd (omega (arith, total)) ]

  rests_live : (p : ℤ) → resting_price o ≡ some p → 0 < (sweep_for o opp).left → RestsAt side p a
  unfolding a assign_sequence visible_qty display_size resting_price
  rests_live p e left =
      consume-RestsAt side p (assign_sequence o seq) (sweep_for o opp).fills
        (record {
          live = record {
            shows = h.live.shows;
            shown = h.live.shown;
            refills = h.live.refills;
            fits = h.live.fits;
          };
          rests = e;
          on_side = h.on_side;
        })
        (shows_more left)

  a_id : a.id ≡ o.id
  unfolding a assign_sequence
  a_id = consume-id (assign_sequence o seq) (sweep_for o opp).fills

  a_new : count_levels a.id own.levels + count_levels a.id opp.levels ≡ 0
  a_new = subst (λ i. count_levels i own.levels + count_levels i opp.levels ≡ 0) (sym a_id) h.new

  -- A new id is nowhere else, any other id is where it was.
  rested_once : (j : ℕ) → count_levels j own.levels + is_id a.id j + count_levels j opp.levels ≤ 1
  rested_once j = elim (Bool-cases (a.id == j)) [
    | inl e ↦
        let new =
          subst (λ i. count_levels i own.levels + count_levels i opp.levels ≡ 0)
            ((==_iff a.id j).0 e) a_new in
        rw e (omega (arith, new))
    | inr e ↦ rw e (omega (arith, v.unique j))
  ]

  rest_parts :
      (p : ℤ)
      → rest_price o (sweep_for o opp) ≡ some p
      → (0 < (sweep_for o opp).left)
        × ((sweep_for o opp).blocked ≡ false)
        × (resting_price o ≡ some p)
  unfolding rest_price
  rest_parts p e = ground arith

  own_cases :
      (p : Option ℤ)
      → rest_price o (sweep_for o opp) ≡ p
      → SidesOk side (own_after side a own p) (opposite_after opp (sweep_for o opp))
  own_cases none e = record {
    own_side = v.own_side;
    opp_side = opp_ok;
    unique = λ j. omega (arith, v.unique j, opp_count j);
    clear = All-map _ _ (λ l. opp-Ahead l.price) own.levels v.clear;
  }
  own_cases (some p) e =
      let (left, open_way, rests) = rest_parts p e in
      let ahead : Ahead (opposite side) p (opposite_after opp (sweep_for o opp)).levels =
        All-map _ _ (λ m x. rests-clear side o p m.price h.on_side rests x) _
          (Sweeps-clear (opposite side) (λ q r. crosses_mono side o q r h.on_side) run
            v.opp_side.sorted open_way left) in
      record {
        own_side =
            rested-SideOk side p a own (rests_live p rests left) (omega (arith, a_new)) v.own_side;
        opp_side = opp_ok;
        unique = λ j. omega (arith, rested-count j side p a own.levels, rested_once j, opp_count j);
        clear =
            rested-price
              (λ q. Ahead (opposite side) q (opposite_after opp (sweep_for o opp)).levels) side p a
              own.levels ahead (All-map _ _ (λ l. opp-Ahead l.price) own.levels v.clear);
      }

  -- Where both sides are well formed and do not cross, and an order may enter and trades less than it
  -- shows or all that it has, the two sides after its entry are well formed, hold no id twice and do
  -- not cross.
  pub entered-SidesOk :
      SidesOk side (entered side own opp seq o).own (entered side own opp seq o).opp
  unfolding entered a
  entered-SidesOk = own_cases (rest_price o (sweep_for o opp)) refl
