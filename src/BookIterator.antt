-- ===== src/BookIterator.antt =====
-- core/book_iterator.hpp: all orders of a side as one range. An iterator is what lies between it and
-- the end: the levels from its own on, and the orders from its own on in the first of them.
pub mod Walk
use multithreaded_exchange_s.Order.{Order}
use multithreaded_exchange_s.PriceLevel.{PriceLevel}
use multithreaded_exchange_s.Prelude.{
  ℕ, zero, suc, ◌+◌, ◌-◌, ◌*◌, ◌/◌, ◌%◌, ◌^◌, ◌≤◌, ◌<◌, min, ◌≡◌, refl, sym, ap, ap₂, subst, ◌∙◌,
  ◌≢◌, ◌↔◌, ◌⊎◌, inl, inr, Bool, true, false, not, ◌&&◌, ◌||◌, Option, none, some, List, [], ◌∷◌,
  ◌++◌, map, append-nil, append_assoc, arith, ltb, leb, ◌==◌, if◌then◌else◌, ltb→lt, lt→ltb, ==_iff,
  Bool-cases, Option-cases, length, take, drop, length-append, take-append, drop-append, All,
  All-append, All-of, All-map, ◌>>=◌, precondition,
}

pub record BookIterator : Type 0 where
  pub levels : List PriceLevel
  pub orders : List Order

-- The loop of skipExhaustedLevels, on the levels and the orders of an iterator.
unfoldable pub skip_exhausted_levels : List PriceLevel → List Order → BookIterator
skip_exhausted_levels [] orders = record { levels = []; orders = orders }
skip_exhausted_levels (l ∷ ls) (o ∷ os) = record { levels = l ∷ ls; orders = o ∷ os }
skip_exhausted_levels (l ∷ []) [] = record { levels = []; orders = [] }
skip_exhausted_levels (l ∷ m ∷ ls) [] = skip_exhausted_levels (m ∷ ls) m.orders

unfoldable pub begin_at : List PriceLevel → BookIterator
unfolding skip_exhausted_levels
begin_at [] = record { levels = []; orders = [] }
begin_at (l ∷ ls) = skip_exhausted_levels (l ∷ ls) l.orders

unfoldable pub is_end : BookIterator → Bool
is_end it = elim it.levels [ [] ↦ true | l ∷ ls ↦ false ]

-- The dereference; none is a broken precondition, or an order iterator at the end of its level.
unfoldable pub deref : BookIterator → Option Order
unfolding is_end
deref it = precondition (not (is_end it)) >>= λ _. elim it.orders [ [] ↦ none | o ∷ os ↦ some o ]

unfoldable pub advance : BookIterator → Option BookIterator
unfolding is_end skip_exhausted_levels
advance it = precondition (not (is_end it)) >>= λ _. elim it.orders [
  | [] ↦ none
  | o ∷ os ↦ some (skip_exhausted_levels it.levels os)
]

-- The orders that a loop from an iterator to the end visits; none is undefined behaviour, or fuel that
-- is used up.
unfoldable pub walk : ℕ → BookIterator → Option (List Order)
unfolding is_end deref advance
walk zero it = none
walk (suc fuel) it =
    if is_end it
    then some []
    else deref it >>= λ o. advance it >>= λ rest. walk fuel rest >>= λ os. some (o ∷ os)
