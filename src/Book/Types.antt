-- ===== src/Book/Types.antt =====
-- core/book.hpp and core/fill.hpp: the state of a book, its results, and its queries.
use multithreaded_exchange_s.Prelude.{
  ℕ, ◌+◌, ◌^◌, ltb, if◌then◌else◌, Bool, false, not, List, Option, none, some,
}
use multithreaded_exchange_s.Prelude.Int.{ℤ, ltb_ℤ, sub_ℕ, pos, negsuc, pos_part, neg_part}
use multithreaded_exchange_s.Types.{Side}
use multithreaded_exchange_s.Order.{Order}
use multithreaded_exchange_s.OrderBook
use multithreaded_exchange_s.OrderBook.{OrderBook, best_price, empty_side}

pub record Fill : Type 0 where
  pub aggressor_id : ℕ
  pub resting_id : ℕ
  pub price : ℤ
  pub quantity : ℕ
  pub aggressor_account : ℕ
  pub resting_account : ℕ
  pub aggressor_side : Side

pub data SubmitStatus : Type 0 where
  resting partially_filled_resting filled cancelled_remainder self_match_blocked : SubmitStatus

pub record SubmitResult : Type 0 where
  pub status : SubmitStatus
  pub fills : List Fill
  pub filled_qty : ℕ
  pub resting_qty : ℕ

pub data ModifyStatus : Type 0 where
  not_found rejected amended_in_place requeued : ModifyStatus

pub record ModifyResult : Type 0 where
  pub status : ModifyStatus
  pub fills : List Fill
  pub resting_qty : ℕ

pub record Book : Type 0 where
  pub bids : OrderBook
  pub asks : OrderBook
  pub next_sequence : ℕ

abbrev pub new_book : Book
new_book = record { bids = empty_side; asks = empty_side; next_sequence = 1 }

-- The side that a template parameter names, and the book with that side replaced.
abbrev pub side_of : Side → Book → OrderBook
side_of Side.buy b = b.bids
side_of Side.sell b = b.asks

abbrev pub with_sides : Side → OrderBook → OrderBook → ℕ → Book
with_sides Side.buy own opp seq = record { bids = own; asks = opp; next_sequence = seq }
with_sides Side.sell own opp seq = record { bids = opp; asks = own; next_sequence = seq }

-- Both best prices, where both sides are populated.
abbrev touch : {A : Type 0} → A → (ℤ → ℤ → A) → Option ℤ → Option ℤ → A
touch d f none ask = d
touch d f (some bid) none = d
touch d f (some bid) (some ask) = f bid ask

abbrev fits_i64 : ℤ → Bool
fits_i64 (pos n) = ltb n (2 ^ 63)
fits_i64 (negsuc n) = ltb n (2 ^ 63)

-- The subtraction of two int64 values, of which an overflow is undefined behaviour: `none`.
abbrev sub_i64 : ℤ → ℤ → Option ℤ
sub_i64 x y =
    let difference = sub_ℕ (pos_part x + neg_part y) (pos_part y + neg_part x) in
    if fits_i64 difference then some difference else none

-- The outer `none` is undefined behaviour.
unfoldable pub spread : Book → Option (Option ℤ)
spread b =
    touch (some none) (λ bid ask. elim (sub_i64 ask bid) [ none ↦ none | some d ↦ some (some d) ])
      (best_price b.bids) (best_price b.asks)

unfoldable pub is_crossed : Book → Bool
is_crossed b = touch false (λ bid ask. not (ltb_ℤ bid ask)) (best_price b.bids) (best_price b.asks)

unfoldable pub find : ℕ → Book → Option Order
find id b = elim (OrderBook.find id b.bids) [ some o ↦ some o | none ↦ OrderBook.find id b.asks ]
