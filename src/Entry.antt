-- ===== src/Entry.antt =====
-- The specification of an order's entry into a book: sweep the opposite side, then rest what is
-- left. Entry/Refine compares prepareSubmit followed by commitSubmit with it.
pub mod Aggressor
pub mod Refine
pub mod Rest
pub mod Valid
pub mod Submit
pub mod Fills
pub mod Iceberg
pub mod Reject
pub mod Cancel
use multithreaded_exchange_s.Prelude.Word.{add64, sub64}
use multithreaded_exchange_s.Book.Types.{Fill, SubmitResult}
use multithreaded_exchange_s.Prelude.Int.{ℤ}
use multithreaded_exchange_s.Prelude.{
  ℕ, zero, suc, ◌+◌, ◌-◌, ◌*◌, ◌/◌, ◌%◌, ◌^◌, ◌≤◌, ◌<◌, min, ◌≡◌, refl, sym, ap, ap₂, subst, ◌∙◌,
  ◌≢◌, ◌↔◌, ◌⊎◌, inl, inr, Bool, true, false, not, ◌&&◌, ◌||◌, Option, none, some, List, [], ◌∷◌,
  ◌++◌, map, append-nil, append_assoc, arith, ltb, leb, ◌==◌, if◌then◌else◌, ltb→lt, lt→ltb, ==_iff,
  Bool-cases, Option-cases, length, take, drop, length-append, take-append, drop-append, All,
  All-append, All-of, All-map, ◌>>=◌, precondition,
}
use multithreaded_exchange_s.Types.{Side}
use multithreaded_exchange_s.OrderBook.{OrderBook, drop_empty}
use multithreaded_exchange_s.OrderBook.Levels.{unindex_all}
use multithreaded_exchange_s.Order.{Order, assign_sequence, resting_price}
use multithreaded_exchange_s.Matching.{Swept, sweep}
use multithreaded_exchange_s.Matching.Commit.{consume}
use multithreaded_exchange_s.Book.Commit.{Committed, fill_of, closing_status, resting_status}
use multithreaded_exchange_s.Validity.Rest.{with_rested}

-- What the sweep of the opposite levels does for the order.
abbrev pub sweep_for : Order → OrderBook → Swept
sweep_for o opp = sweep o opp.levels o.remaining

-- The price at which the order comes to rest, if it does.
unfoldable pub rest_price : Order → Swept → Option ℤ
rest_price o s = if ltb 0 s.left && not s.blocked then resting_price o else none

-- The opposite side after the sweep.
abbrev pub opposite_after : OrderBook → Swept → OrderBook
opposite_after opp s = record { levels = drop_empty s.levels; index = unindex_all s.gone opp.index }

abbrev pub own_after : Side → Order → OrderBook → Option ℤ → OrderBook
own_after side a own none = own
own_after side a own (some p) = with_rested side p a own

abbrev pub result_after : Order → List Fill → ℕ → Bool → Option ℤ → SubmitResult
result_after a fills traded blocked none = record {
  status = closing_status a blocked;
  fills = fills;
  filled_qty = traded;
  resting_qty = 0;
}
result_after a fills traded blocked (some p) = record {
  status = resting_status fills;
  fills = fills;
  filled_qty = traded;
  resting_qty = a.remaining;
}

-- The order as the matching leaves it, with its place in the sequence.
abbrev pub aggressor_after : Order → ℕ → Swept → Order
aggressor_after o seq s = consume (assign_sequence o seq) s.fills

unfoldable pub entered : Side → OrderBook → OrderBook → ℕ → Order → Committed
entered side own opp seq o =
    let s = sweep_for o opp in
    let a = aggressor_after o seq s in
    record {
      result =
          result_after a (map (fill_of (assign_sequence o seq)) s.fills) (sub64 o.remaining s.left)
            s.blocked (rest_price o s);
      own = own_after side a own (rest_price o s);
      opp = opposite_after opp s;
      next_sequence = add64 seq 1;
    }
