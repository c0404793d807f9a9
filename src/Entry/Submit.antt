-- ===== src/Entry/Submit.antt =====
-- Book::submit of core/book.cpp on a well-formed book.
use multithreaded_exchange_s.Book.Plan.{prepare_submit}
use multithreaded_exchange_s.Order.Lifecycle.{IsLive}
use multithreaded_exchange_s.Prelude.{
  >>=-then, ℕ, ◌+◌, ◌<◌, ◌≡◌, refl, ◌∙◌, true, false, none, some, List, [], ◌∷◌, arith, ◌==◌, All,
  All-map,
}
use multithreaded_exchange_s.Types.{before, Side, opposite}
use multithreaded_exchange_s.Order.{Order}
use multithreaded_exchange_s.PriceLevel.{PriceLevel}
use multithreaded_exchange_s.Entry.{entered}
use multithreaded_exchange_s.Entry.Valid.{SidesOk, MayEnter, TradesClean, entered-SidesOk}
use multithreaded_exchange_s.Entry.Refine.{prepare-commit-entered}
use multithreaded_exchange_s.Validity.{BookOk, SideOk, Ahead, count_levels}
use multithreaded_exchange_s.Validity.Ids.{scan-none}
use multithreaded_exchange_s.OrderBook
use multithreaded_exchange_s.OrderBook.{OrderBook, best_price, lookup_index}
use multithreaded_exchange_s.Book.{submit, enter, validate, Submitted}
use multithreaded_exchange_s.Book.Types.{Book, is_crossed, find, side_of, with_sides}
use multithreaded_exchange_s.Book.Commit.{Committed}

-- The order of two quantified positions.
All-swap {ℓ κ μ} :
    {A : Type ℓ} {B : Type κ} (R : A → B → Type μ) (xs : List A) (ys : List B)
    → All (λ x. All (R x) ys) xs
    → All (λ y. All (λ x. R x y) xs) ys
All-swap R xs [] h = tt
All-swap R xs (y ∷ ys) h = (
  All-map (λ x. All (R x) (y ∷ ys)) (λ x. R x y) (λ x k. k.0) xs h,
  All-swap R xs ys (All-map (λ x. All (R x) (y ∷ ys)) (λ x. All (R x) ys) (λ x k. k.1) xs h),
)

pub BookOk-SidesOk :
    (side : Side) (b : Book) → BookOk b → SidesOk side (side_of side b) (side_of (opposite side) b)
unfolding opposite
BookOk-SidesOk Side.buy b v = record {
  own_side = v.bids;
  opp_side = v.asks;
  unique = v.unique;
  clear = v.uncrossed;
}
BookOk-SidesOk Side.sell b v = record {
  own_side = v.asks;
  opp_side = v.bids;
  unique = λ j. omega (arith, v.unique j);
  clear =
      All-swap (λ l m. before Side.sell l.price m.price ≡ true) b.bids.levels b.asks.levels
        v.uncrossed;
}

pub SidesOk-BookOk :
    (side : Side) (own opp : OrderBook) (seq : ℕ)
    → SidesOk side own opp
    → BookOk (with_sides side own opp seq)
unfolding opposite
SidesOk-BookOk Side.buy own opp seq v = record {
  bids = v.own_side;
  asks = v.opp_side;
  unique = v.unique;
  uncrossed = v.clear;
}
SidesOk-BookOk Side.sell own opp seq v = record {
  bids = v.opp_side;
  asks = v.own_side;
  unique = λ j. omega (arith, v.unique j);
  uncrossed =
      All-swap (λ l m. before Side.buy l.price m.price ≡ true) own.levels opp.levels v.clear;
}

best_nil : (s : OrderBook) → s.levels ≡ [] → best_price s ≡ none
unfolding best_price
best_nil s e = rw e

best_cons :
    (s : OrderBook) (l : PriceLevel) (ls : List PriceLevel)
    → s.levels ≡ l ∷ ls
    → best_price s ≡ some l.price
unfolding best_price
best_cons s l ls e = rw e

crossed_levels :
    (b : Book) (bids asks : List PriceLevel)
    → b.bids.levels ≡ bids
    → b.asks.levels ≡ asks
    → All (λ l. Ahead Side.sell l.price asks) bids
    → is_crossed b ≡ false
unfolding is_crossed
crossed_levels b [] asks e f h = rw (best_nil b.bids e)
crossed_levels b (l ∷ bids) [] e f h = rw (best_cons b.bids l bids e, best_nil b.asks f)
crossed_levels b (l ∷ bids) (m ∷ asks) e f h =
    rw (best_cons b.bids l bids e, best_cons b.asks m asks f, h.0.0)

-- A well-formed book is not crossed: its best bid, where it has one, is below its best ask.
pub BookOk-is_crossed : (b : Book) → BookOk b → is_crossed b ≡ false
BookOk-is_crossed b v = crossed_levels b b.bids.levels b.asks.levels refl refl v.uncrossed

pub side_find-none :
    (side : Side) (j : ℕ) (s : OrderBook)
    → SideOk side s
    → count_levels j s.levels ≡ 0
    → OrderBook.find j s ≡ none
unfolding OrderBook.find
side_find-none side j s v h =
    let e : lookup_index j s.index ≡ none = v.coherent j ∙ scan-none j s.levels h in rw e

pub find-none :
    (b : Book) (j : ℕ)
    → BookOk b
    → count_levels j b.bids.levels + count_levels j b.asks.levels ≡ 0
    → find j b ≡ none
unfolding find
find-none b j v new =
    rw (side_find-none Side.buy j b.bids v.bids (omega arith), find)
      (side_find-none Side.sell j b.asks v.asks (omega arith))

validate-none :
    (b : Book) (o : Order)
    → BookOk b
    → 0 < o.remaining
    → count_levels o.id b.bids.levels + count_levels o.id b.asks.levels ≡ 0
    → validate b o ≡ none
unfolding validate
validate-none b o v h new =
    let z : (o.remaining == 0) ≡ false = ground arith in rw (z, find-none b o.id v new)

count_sides :
    (side : Side) (j : ℕ) (b : Book)
    → count_levels j (side_of side b).levels + count_levels j (side_of (opposite side) b).levels
      ≡ count_levels j b.bids.levels + count_levels j b.asks.levels
unfolding opposite
count_sides Side.buy j b = refl
count_sides Side.sell j b = omega arith

-- The entry of an order, as the specification has it.
abbrev pub entry_of : Book → Order → Committed
entry_of b o = entered o.side (side_of o.side b) (side_of (opposite o.side) b) b.next_sequence o

abbrev pub book_after : Book → Order → Book
book_after b o =
    with_sides o.side (entry_of b o).own (entry_of b o).opp (entry_of b o).next_sequence

enter-entered :
    (b : Book) (o : Order)
    → BookOk b
    → MayEnter o.side (side_of o.side b) (side_of (opposite o.side) b) o
    → TradesClean o (side_of (opposite o.side) b)
    → (enter o.side b o ≡ some ((entry_of b o).result, book_after b o)) × BookOk (book_after b o)
unfolding enter
enter-entered b o v h c =
    let w = BookOk-SidesOk o.side b v in
    let ok =
      SidesOk-BookOk o.side _ _ (entry_of b o).next_sequence
        (entered-SidesOk o.side _ _ b.next_sequence o w h c) in
    (
      >>=-then (prepare_submit (side_of (opposite o.side) b) o) _ _ (
            prepare-commit-entered o.side (side_of o.side b) (side_of (opposite o.side) b)
              b.next_sequence o h.live.fits w.opp_side)
          ∙ rw (BookOk-is_crossed (book_after b o) ok),
      ok,
    )

-- A live order with a new id, which trades less than it shows or all that it has, is accepted by a
-- well-formed book: `submit` breaks no precondition, the final check for a crossed book included,
-- returns the result and the sides of the specified entry, and leaves a well-formed book.
pub submit-entered :
    (b : Book) (o : Order)
    → BookOk b
    → IsLive o
    → count_levels o.id b.bids.levels + count_levels o.id b.asks.levels ≡ 0
    → TradesClean o (side_of (opposite o.side) b)
    → (submit b (some o) ≡ some (Submitted.returned (entry_of b o).result (book_after b o)))
      × BookOk (book_after b o)
unfolding submit
submit-entered b o v live new c =
    let may : MayEnter o.side (side_of o.side b) (side_of (opposite o.side) b) o = record {
      live = live;
      on_side = refl;
      new = count_sides o.side o.id b ∙ new;
    } in
    let (e, ok) = enter-entered b o v may c in
    (rw (validate-none b o v (omega (arith, live.shows, live.shown)) new, submit) (rw e), ok)
