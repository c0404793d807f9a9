-- ===== src/Tests.antt =====
-- The theorems at concrete inputs: a small book built by submitting orders to a new one.
pub mod Entry
pub mod Matching
pub mod Parts
pub mod Stream
pub mod Queue
pub mod Run
pub mod Log
pub mod Restart
pub mod Net
pub mod Stats
pub mod Pool
use multithreaded_exchange_s.Entry.{sweep_for, rest_price, entered}
use multithreaded_exchange_s.Prelude.Word.{add64, u64_mod}
use multithreaded_exchange_s.Entry.Aggressor.{sum_fills}
use multithreaded_exchange_s.OrderBook.Levels.{unindex_all}
use multithreaded_exchange_s.Matching.Commit.{consume}
use multithreaded_exchange_s.Types.{opposite, Side}
use multithreaded_exchange_s.Queue.Ids.{count_node}
use multithreaded_exchange_s.PriceLevel.{make_level, enqueue, PriceLevel}
use multithreaded_exchange_s.OrderBook.{
  unindex, install_index, drop_empty, empty_side, OrderBook, lookup_index,
}
use multithreaded_exchange_s.Order.{
  assign_sequence, resting_price, crosses, Kind, display_size, Order, visible_qty,
}
use multithreaded_exchange_s.Validity.Rest.{rested}
use multithreaded_exchange_s.Entry.Submit.{submit-entered, book_after}
use multithreaded_exchange_s.Validity.{BookOk, scan, count_levels}
use multithreaded_exchange_s.Book.Types.{new_book, Book}
use multithreaded_exchange_s.Order.Lifecycle.{IsLive}
use multithreaded_exchange_s.Prelude.Int.{pos}
use multithreaded_exchange_s.Matching.{sweep}
use multithreaded_exchange_s.Prelude.{
  ℕ, zero, suc, ◌+◌, ◌-◌, ◌*◌, ◌/◌, ◌%◌, ◌^◌, ◌≤◌, ◌<◌, min, ◌≡◌, refl, sym, ap, ap₂, subst, ◌∙◌,
  ◌≢◌, ◌↔◌, ◌⊎◌, inl, inr, Bool, true, false, not, ◌&&◌, ◌||◌, Option, none, some, List, [], ◌∷◌,
  ◌++◌, map, append-nil, append_assoc, arith, ltb, leb, ◌==◌, if◌then◌else◌, ltb→lt, lt→ltb, ==_iff,
  Bool-cases, Option-cases, length, take, drop, length-append, take-append, drop-append, All,
  All-append, All-of, All-map, ◌>>=◌, precondition,
}

abbrev pub order_of : ℕ → Side → ℕ → ℕ → Kind → Order
order_of id side account qty kind = record {
  id = id;
  remaining = qty;
  sequence = 0;
  account = account;
  side = side;
  kind = kind;
}

-- Five lots for sale at 101, and twelve more behind them of which four are on display.
abbrev pub sell_five : Order
sell_five = order_of 1 Side.sell 20 5 (Kind.limit (pos 101))

abbrev pub sell_hidden : Order
sell_hidden = order_of 2 Side.sell 30 12 (Kind.iceberg (pos 101) 4 4)

-- A bid that takes eleven of those.
abbrev pub buy_eleven : Order
buy_eleven = order_of 3 Side.buy 40 11 (Kind.limit (pos 102))

-- A bid for more than is offered, of which it shows two lots.
abbrev pub buy_hidden : Order
buy_hidden = order_of 4 Side.buy 50 30 (Kind.iceberg (pos 103) 2 2)

pub IsLive-order :
    (o : Order)
    → 0 < visible_qty o
    → visible_qty o ≤ o.remaining
    → 0 < display_size o
    → o.remaining < u64_mod
    → IsLive o
IsLive-order o a b c d = record { shows = a; shown = b; refills = c; fits = d }

pub sell_five-IsLive : IsLive sell_five
unfolding visible_qty display_size
sell_five-IsLive = IsLive-order sell_five (omega arith) (omega arith) (omega arith) (omega arith)

pub sell_hidden-IsLive : IsLive sell_hidden
unfolding visible_qty display_size
sell_hidden-IsLive =
    IsLive-order sell_hidden (omega arith) (omega arith) (omega arith) (omega arith)

pub buy_eleven-IsLive : IsLive buy_eleven
unfolding visible_qty display_size
buy_eleven-IsLive = IsLive-order buy_eleven (omega arith) (omega arith) (omega arith) (omega arith)

pub buy_hidden-IsLive : IsLive buy_hidden
unfolding visible_qty display_size
buy_hidden-IsLive = IsLive-order buy_hidden (omega arith) (omega arith) (omega arith) (omega arith)

pub new_book-BookOk : BookOk new_book
unfolding lookup_index scan count_levels
new_book-BookOk = record {
  bids = record { levels = tt; sorted = tt; coherent = λ j. refl };
  asks = record { levels = tt; sorted = tt; coherent = λ j. refl };
  unique = λ j. omega arith;
  uncrossed = tt;
}

-- The offers at 101, as two submits leave them.
abbrev pub offers : PriceLevel
offers = record {
  price = pos 101;
  orders = record sell_five { sequence = 1 } ∷ record sell_hidden { sequence = 2 } ∷ [];
  total_qty = 17;
  visible_qty = 9;
}

abbrev pub ask_side : OrderBook
ask_side = record {
  levels = offers ∷ [];
  index =
      (2, record { price = pos 101; position = 2 })
      ∷ (1, record { price = pos 101; position = 1 })
      ∷ [];
}

abbrev pub offered : Book
offered = record { bids = empty_side; asks = ask_side; next_sequence = 3 }

pub one_offer : Book
one_offer = book_after new_book sell_five

pub one_offer-BookOk : BookOk one_offer
unfolding one_offer count_levels sweep visible_qty sum_fills opposite
one_offer-BookOk =
    (submit-entered new_book sell_five new_book-BookOk sell_five-IsLive refl (inl (omega arith))).1

-- The iceberg is new there and meets no bid.
pub sell_hidden-new :
    count_levels 2 one_offer.bids.levels + count_levels 2 one_offer.asks.levels ≡ 0
unfolding one_offer entered rest_price sweep sum_fills rested visible_qty crosses resting_price
    enqueue assign_sequence drop_empty lookup_index install_index unindex opposite make_level
    consume unindex_all add64 count_levels count_node
sell_hidden-new = refl

pub sell_hidden-clean :
    sum_fills (sweep_for sell_hidden one_offer.bids).fills < visible_qty sell_hidden
unfolding one_offer entered rest_price sweep sum_fills rested visible_qty crosses resting_price
    enqueue assign_sequence drop_empty lookup_index install_index unindex opposite make_level
    consume unindex_all add64 count_levels count_node
sell_hidden-clean = omega arith

two_offers : book_after one_offer sell_hidden ≡ offered
unfolding one_offer entered rest_price sweep sum_fills rested visible_qty crosses resting_price
    enqueue assign_sequence drop_empty lookup_index install_index unindex opposite make_level
    consume unindex_all add64
two_offers = refl

pub offered-BookOk : BookOk offered
unfolding one_offer entered rest_price sweep sum_fills rested visible_qty crosses resting_price
    enqueue assign_sequence drop_empty lookup_index install_index unindex opposite make_level
    consume unindex_all add64 count_levels count_node
offered-BookOk =
    subst BookOk two_offers
      (submit-entered one_offer sell_hidden one_offer-BookOk sell_hidden-IsLive refl
        (inl (omega arith))).1
