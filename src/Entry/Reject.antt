-- ===== src/Entry/Reject.antt =====
-- core/book.cpp on an id that the book holds already, and on one that it does not hold.
use multithreaded_exchange_s.Validity.Ids.{scan-none}
use multithreaded_exchange_s.OrderBook.{lookup_index, OrderBook}
use multithreaded_exchange_s.Validity.Held.{side-find}
use multithreaded_exchange_s.Entry.Submit.{side_find-none}
use multithreaded_exchange_s.Validity.{SideOk, count_levels, BookOk}
use multithreaded_exchange_s.Order.{Order}
use multithreaded_exchange_s.Prelude.Int.{ℤ}
use multithreaded_exchange_s.Types.{Side}
use multithreaded_exchange_s.OrderBook
use multithreaded_exchange_s.Book
use multithreaded_exchange_s.Book.{InvalidOrder, Submitted, submit, validate, modify}
use multithreaded_exchange_s.Book.Types.{Book, find, ModifyStatus}
use multithreaded_exchange_s.Prelude.{
  ℕ, ◌+◌, ◌<◌, ◌≡◌, refl, ◌∙◌, inl, inr, false, Option, none, some, [], arith, ltb, ◌==◌,
  Bool-cases,
}

find-held :
    (b : Book) (j : ℕ)
    → BookOk b
    → 0 < count_levels j b.bids.levels + count_levels j b.asks.levels
    → (r : Order) × (find j b ≡ some r) × (r.id ≡ j)
unfolding find
find-held b j v held = elim (Bool-cases (ltb 0 (count_levels j b.bids.levels))) [
  | inl k ↦
      let r = side-find Side.buy j b.bids v.bids (ground arith) in (r.0, rw (r.1, find) refl, r.2)
  | inr k ↦
      let bids = side_find-none Side.buy j b.bids v.bids (ground arith) in
      let r = side-find Side.sell j b.asks v.asks (ground arith) in (r.0, rw (bids, find) r.1, r.2)
]

validate-duplicate :
    (b : Book) (o r : Order)
    → 0 < o.remaining
    → find o.id b ≡ some r
    → validate b o ≡ some InvalidOrder.duplicate_id
unfolding validate
validate-duplicate b o r h e = let z : (o.remaining == 0) ≡ false = ground arith in rw (z, e) refl

-- A well-formed book finds an order of each id that it holds, and rejects another order of that id
-- with a positive quantity as a duplicate.
pub submit-duplicate :
    (b : Book) (o : Order)
    → BookOk b
    → 0 < o.remaining
    → 0 < count_levels o.id b.bids.levels + count_levels o.id b.asks.levels
    → (submit b (some o) ≡ some (Submitted.thrown InvalidOrder.duplicate_id))
      × (r : Order) × (find o.id b ≡ some r)
      × (r.id ≡ o.id)
unfolding submit
submit-duplicate b o v some_left held =
    let r = find-held b o.id v held in
    (rw (validate-duplicate b o r.0 some_left r.1, submit) refl, r.0, r.1, r.2)

pub side_cancel-none :
    (side : Side) (j : ℕ) (s : OrderBook)
    → SideOk side s
    → count_levels j s.levels ≡ 0
    → OrderBook.cancel j s ≡ some (none, s)
unfolding OrderBook.cancel
side_cancel-none side j s v h =
    let e : lookup_index j s.index ≡ none = v.coherent j ∙ scan-none j s.levels h in
    rw (e, OrderBook.cancel) refl

-- An id that a well-formed book does not hold: cancelling it gives the null pointer, amending it to a
-- positive quantity gives not_found, and both leave the book as it was.
pub cancel-modify_absent :
    (b : Book) (j q : ℕ) (p : Option ℤ)
    → BookOk b
    → count_levels j b.bids.levels + count_levels j b.asks.levels ≡ 0
    → 0 < q
    → (Book.cancel j b ≡ some (none, b))
      × (modify b j q p
          ≡ some (record { status = ModifyStatus.not_found; fills = []; resting_qty = 0 }, b))
unfolding Book.cancel modify
cancel-modify_absent b j q p v new positive =
    let z : (q == 0) ≡ false = ground arith in
    (
      rw (side_cancel-none Side.buy j b.bids v.bids (omega (arith, new)))
          (rw (side_cancel-none Side.sell j b.asks v.asks (omega (arith, new))) refl),
      rw z (
          rw (side_find-none Side.buy j b.bids v.bids (omega (arith, new)))
            (rw (side_find-none Side.sell j b.asks v.asks (omega (arith, new))) refl)),
    )
