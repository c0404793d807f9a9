-- ===== src/Entry/Cancel.antt =====
-- Book::cancel of core/book.cpp on an id that the book holds.
use multithreaded_exchange_s.PriceLevel.{PriceLevel, is_empty, extract}
use multithreaded_exchange_s.Order
use multithreaded_exchange_s.Prelude.Word.{sub64}
use multithreaded_exchange_s.Queue.{erase_node}
use multithreaded_exchange_s.OrderBook.{erase_level, set_level, unindex, lookup_index, OrderBook}
use multithreaded_exchange_s.Validity.Ids.{lookup_index-unindex}
use multithreaded_exchange_s.Entry.Reject.{side_cancel-none}
use multithreaded_exchange_s.Validity.Held.{levels-Held}
use multithreaded_exchange_s.Validity.{SideOk, count_levels, BookOk}
use multithreaded_exchange_s.Entry.Submit.{side_find-none}
use multithreaded_exchange_s.Types.{Side}
use multithreaded_exchange_s.Order.{Order}
use multithreaded_exchange_s.OrderBook
use multithreaded_exchange_s.Book
use multithreaded_exchange_s.Queue.Count.{find_node-id}
use multithreaded_exchange_s.Book.Types.{Book, find}
use multithreaded_exchange_s.Prelude.{
  ℕ, ◌+◌, ◌<◌, ◌≡◌, refl, ◌∙◌, inl, inr, true, none, some, arith, ltb, ◌==◌, if◌then◌else◌,
  Bool-cases,
}

-- What a side does with an id that it holds.
record Withdrawn (j : ℕ) (s : OrderBook) : Type 0 where
  order : Order
  after : OrderBook
  found : OrderBook.find j s ≡ some order
  named : order.id ≡ j
  returns : OrderBook.cancel j s ≡ some (some order, after)
  unfound : OrderBook.find j after ≡ none

side-Withdrawn :
    (side : Side) (j : ℕ) (s : OrderBook)
    → SideOk side s
    → 0 < count_levels j s.levels
    → Withdrawn j s
unfolding OrderBook.find OrderBook.cancel extract
side-Withdrawn side j s v h =
    let r = levels-Held side j s.levels v.sorted h in
    let indexed : lookup_index j s.index ≡ some (record { price = r.level.price; position = j }) =
      v.coherent j ∙ r.scanned in
    let same : (j == j) ≡ true = ground arith in
    let gone : lookup_index j (unindex j s.index) ≡ none =
      lookup_index-unindex j j s.index ∙ rw same refl in
    let left : PriceLevel = record (r.level) {
      orders = erase_node j r.level.orders;
      total_qty = sub64 r.level.total_qty r.order.remaining;
      visible_qty = sub64 r.level.visible_qty (Order.visible_qty r.order);
    } in
    let after : OrderBook = record {
      levels =
          if is_empty left
          then erase_level r.level.price s.levels
          else set_level r.level.price left s.levels;
      index = unindex j s.index;
    } in
    record {
      order = r.order;
      after = after;
      found = rw (indexed, r.at_price) r.in_queue;
      named = find_node-id r.level.orders j r.order r.in_queue;
      returns = rw (indexed, OrderBook.cancel) (rw r.at_price (rw r.in_queue refl));
      unfound = rw gone refl;
    }

-- Cancelling an id that a well-formed book holds breaks no precondition, gives the order of that id
-- that `find` gives, and leaves a book in which `find` gives none.
pub cancel-find :
    (b : Book) (j : ℕ)
    → BookOk b
    → 0 < count_levels j b.bids.levels + count_levels j b.asks.levels
    → (o : Order) × (after : Book) × (Book.cancel j b ≡ some (some o, after))
      × (find j b ≡ some o)
      × (o.id ≡ j)
      × (find j after ≡ none)
unfolding Book.cancel find
cancel-find b j v held = elim (Bool-cases (ltb 0 (count_levels j b.bids.levels))) [
  | inl k ↦
      let w = side-Withdrawn Side.buy j b.bids v.bids (ground arith) in
      let other = side_find-none Side.sell j b.asks v.asks (ground (arith, v.unique j)) in
      (
        w.order,
        record b { bids = w.after },
        rw w.returns refl,
        rw (w.found, find) refl,
        w.named,
        rw (w.unfound, find) other,
      )
  | inr k ↦
      let none_held : count_levels j b.bids.levels ≡ 0 = ground arith in
      let w = side-Withdrawn Side.sell j b.asks v.asks (ground arith) in
      let other = side_find-none Side.buy j b.bids v.bids none_held in
      let pass = side_cancel-none Side.buy j b.bids v.bids none_held in
      (
        w.order,
        record b { asks = w.after },
        rw pass (rw w.returns refl),
        rw (other, find) w.found,
        w.named,
        rw (other, find) w.unfound,
      )
]
