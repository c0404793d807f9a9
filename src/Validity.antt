-- ===== src/Validity.antt =====
-- When a side and a book of core/order_book.hpp and core/book.hpp are well formed.
pub mod Ids
pub mod Swept
pub mod Rest
pub mod Held
use multithreaded_exchange_s.Prelude.Int.{ℤ}
use multithreaded_exchange_s.Prelude.{
  ℕ, zero, suc, ◌+◌, ◌-◌, ◌*◌, ◌/◌, ◌%◌, ◌^◌, ◌≤◌, ◌<◌, min, ◌≡◌, refl, sym, ap, ap₂, subst, ◌∙◌,
  ◌≢◌, ◌↔◌, ◌⊎◌, inl, inr, Bool, true, false, not, ◌&&◌, ◌||◌, Option, none, some, List, [], ◌∷◌,
  ◌++◌, map, append-nil, append_assoc, arith, ltb, leb, ◌==◌, if◌then◌else◌, ltb→lt, lt→ltb, ==_iff,
  Bool-cases, Option-cases, length, take, drop, length-append, take-append, drop-append, All,
  All-append, All-of, All-map, ◌>>=◌, precondition,
}
use multithreaded_exchange_s.Types.{Side, opposite, before}
use multithreaded_exchange_s.PriceLevel.{PriceLevel, is_empty}
use multithreaded_exchange_s.PriceLevel.Aggregates.{IsSummed}
use multithreaded_exchange_s.OrderBook.{OrderBook, Locator, lookup_index}
use multithreaded_exchange_s.Queue.Ids.{count_node, has_node}
use multithreaded_exchange_s.Strategy.Facts.{RestsAt}
use multithreaded_exchange_s.Book.Types.{Book}

-- A level: its sums are true, it holds an order, and all its orders rest there by right.
pub record LevelOk (side : Side) (l : PriceLevel) : Type 0 where
  pub summed : IsSummed l
  pub holds : is_empty l ≡ false
  pub resting : All (RestsAt side l.price) l.orders

-- The price comes before that of every level of the list.
abbrev pub Ahead : Side → ℤ → List PriceLevel → Type 0
Ahead side p = All (λ m. before side p m.price ≡ true)

-- Best price first, and one level to a price.
abbrev pub Sorted : Side → List PriceLevel → Type 0
Sorted side [] = Unit
Sorted side (l ∷ ls) = Ahead side l.price ls × Sorted side ls

-- Where the levels hold an order of an id.
unfoldable pub scan : ℕ → List PriceLevel → Option Locator
scan j [] = none
scan j (l ∷ ls) =
    if has_node j l.orders then some (record { price = l.price; position = j }) else scan j ls

unfoldable pub count_levels : ℕ → List PriceLevel → ℕ
count_levels j [] = 0
count_levels j (l ∷ ls) = count_node j l.orders + count_levels j ls

-- A side: levels in order, each well formed, and an index that names exactly what they hold.
pub record SideOk (side : Side) (b : OrderBook) : Type 0 where
  pub levels : All (LevelOk side) b.levels
  pub sorted : Sorted side b.levels
  pub coherent : (j : ℕ) → lookup_index j b.index ≡ scan j b.levels

-- No price of the one side reaches a price of the other.
abbrev pub Clear : Side → List PriceLevel → List PriceLevel → Type 0
Clear side own opp = All (λ l. Ahead (opposite side) l.price opp) own

-- A book: both sides are well formed, no id stands twice, and the sides do not cross.
pub record BookOk (b : Book) : Type 0 where
  pub bids : SideOk Side.buy b.bids
  pub asks : SideOk Side.sell b.asks
  pub unique : (j : ℕ) → count_levels j b.bids.levels + count_levels j b.asks.levels ≤ 1
  pub uncrossed : All (λ l. Ahead Side.sell l.price b.asks.levels) b.bids.levels
