-- ===== src/OrderBook.antt =====
-- core/order_book.hpp: one side of the book. `Levels` is a std::map as the list of its levels in the
-- order of the comparator, which the side gives; the hash index is an association list.
pub mod Levels
use multithreaded_exchange_s.PriceLevel.{enqueue, make_level, PriceLevel, is_empty, extract}
use multithreaded_exchange_s.Order.{resting_price, Order}
use multithreaded_exchange_s.Prelude.{
  precondition, ℕ, Bool, true, false, List, [], ◌∷◌, Option, none, some, ◌==◌, if◌then◌else◌, ◌>>=◌,
}
use multithreaded_exchange_s.Prelude.Lists.{length}
use multithreaded_exchange_s.Prelude.Int.{ℤ, eqb_ℤ}
use multithreaded_exchange_s.Prelude.Word.{add64}
use multithreaded_exchange_s.Types.{Side, before}
use multithreaded_exchange_s.Queue.{find_node}

pub record Locator : Type 0 where
  pub price : ℤ
  pub position : ℕ

pub record OrderBook : Type 0 where
  pub levels : List PriceLevel
  pub index : List (ℕ × Locator)

abbrev pub empty_side : OrderBook
empty_side = record { levels = []; index = [] }

-- std::map::find on a price, and a write through the reference that it gives.
unfoldable pub find_level : ℤ → List PriceLevel → Option PriceLevel
find_level p [] = none
find_level p (l ∷ ls) = if eqb_ℤ l.price p then some l else find_level p ls

unfoldable pub set_level : ℤ → PriceLevel → List PriceLevel → List PriceLevel
set_level p n [] = []
set_level p n (l ∷ ls) = if eqb_ℤ l.price p then n ∷ ls else l ∷ set_level p n ls

unfoldable pub erase_level : ℤ → List PriceLevel → List PriceLevel
erase_level p [] = []
erase_level p (l ∷ ls) = if eqb_ℤ l.price p then ls else l ∷ erase_level p ls

-- std::map::insert: nothing changes where the price has a level.
unfoldable pub install_level : Side → PriceLevel → List PriceLevel → List PriceLevel
install_level side n [] = n ∷ []
install_level side n (l ∷ ls) =
    if before side l.price n.price
    then l ∷ install_level side n ls
    else if eqb_ℤ l.price n.price
    then l ∷ ls
    else n ∷ l ∷ ls

-- The hash index: find, erase and emplace of std::unordered_map.
unfoldable pub lookup_index : ℕ → List (ℕ × Locator) → Option Locator
lookup_index id [] = none
lookup_index id ((k, v) ∷ m) = if k == id then some v else lookup_index id m

unfoldable pub unindex : ℕ → List (ℕ × Locator) → List (ℕ × Locator)
unindex id [] = []
unindex id ((k, v) ∷ m) = if k == id then unindex id m else (k, v) ∷ unindex id m

abbrev pub is_none {ℓ} : {A : Type ℓ} → Option A → Bool
is_none none = true
is_none (some a) = false

unfoldable pub install_index : ℕ → Locator → List (ℕ × Locator) → List (ℕ × Locator)
install_index id v m = if is_none (lookup_index id m) then (id, v) ∷ m else m

unfoldable pub best_price : OrderBook → Option ℤ
best_price b = elim b.levels [ [] ↦ none | l ∷ ls ↦ some l.price ]

unfoldable pub qty_at : ℤ → OrderBook → ℕ
qty_at p b = elim (find_level p b.levels) [ none ↦ 0 | some l ↦ l.total_qty ]

unfoldable pub order_count : OrderBook → ℕ
order_count b = length b.index

-- Total resting quantity of the side, as the loop adds it up.
unfoldable pub total_from : ℕ → List PriceLevel → ℕ
total_from acc [] = acc
total_from acc (l ∷ ls) = total_from (add64 acc l.total_qty) ls

unfoldable pub total_qty : OrderBook → ℕ
total_qty b = total_from 0 b.levels

-- nullptr is `none`; a locator that dangles, which a valid side never holds, reads as nullptr.
unfoldable pub find : ℕ → OrderBook → Option Order
find id b = do
  loc ← lookup_index id b.index
  l ← find_level loc.price b.levels
  find_node loc.position l.orders

-- Removes an order and hands it back; `some (none, b)` is the null pointer for an unknown id.
unfoldable pub cancel : ℕ → OrderBook → Option (Option Order × OrderBook)
cancel id b = elim (lookup_index id b.index) [
  | none ↦ some (none, b)
  | some loc ↦ do
    l ← find_level loc.price b.levels
    out ← extract l loc.position
    some (
      some out.0,
      record {
        levels =
            if is_empty out.1
            then erase_level loc.price b.levels
            else set_level loc.price out.1 b.levels;
        index = unindex id b.index;
      },
    )
]

unfoldable pub drop_empty : List PriceLevel → List PriceLevel
drop_empty [] = []
drop_empty (l ∷ ls) = if is_empty l then drop_empty ls else l ∷ ls

unfoldable pub drop_empty_levels_from_front : OrderBook → OrderBook
drop_empty_levels_from_front b = record b { levels = drop_empty b.levels }

unfoldable pub drop_best_level_if_empty : OrderBook → OrderBook
drop_best_level_if_empty b = elim b.levels [
  | [] ↦ b
  | l ∷ ls ↦ if is_empty l then record b { levels = ls } else b
]

-- try_emplace on a price: an existing queue is never disturbed.
unfoldable pub ensure_level : Side → ℤ → OrderBook → OrderBook
unfolding install_level make_level
ensure_level side p b = record b { levels = install_level side (make_level p) b.levels }

unfoldable pub index_order : ℕ → ℤ → ℕ → OrderBook → Option OrderBook
index_order id p position b = precondition (is_none (lookup_index id b.index)) >>= λ _.
    some (record b { index = install_index id (record { price = p; position = position }) b.index })

-- Rests an order; none is an order that has no resting price.
unfoldable pub insert : Side → Order → OrderBook → Option OrderBook
unfolding ensure_level install_index
insert side o b = do
  p ← resting_price o
  l ← find_level p (ensure_level side p b).levels
  some (record {
    levels = set_level p (enqueue l o) (ensure_level side p b).levels;
    index = install_index o.id (record { price = p; position = o.id }) b.index;
  })

-- The level and the iterator of a resting order.
unfoldable pub locate : ℕ → OrderBook → Option (PriceLevel × ℕ)
locate id b = do
  loc ← lookup_index id b.index
  l ← find_level loc.price b.levels
  some (l, loc.position)
