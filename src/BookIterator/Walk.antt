-- ===== src/BookIterator/Walk.antt =====
-- core/book_iterator.hpp: the range between begin and end.
use multithreaded_exchange_s.Order.{Order}
use multithreaded_exchange_s.PriceLevel.{PriceLevel}
use multithreaded_exchange_s.BookIterator.{
  walk, begin_at, skip_exhausted_levels, is_end, deref, advance,
}
use multithreaded_exchange_s.Prelude.{
  ℕ, zero, suc, ◌+◌, ◌<◌, ◌≡◌, refl, ap, some, List, [], ◌∷◌, ◌++◌, arith, length, length-append,
  ◌>>=◌,
}

-- The orders of the levels, best level first, in the order of the queues.
unfoldable pub all_orders : List PriceLevel → List Order
all_orders [] = []
all_orders (l ∷ ls) = l.orders ++ all_orders ls

-- From an iterator that has skipped the spent levels, the loop visits what lies ahead.
walk-skip :
    (fuel : ℕ) (l : PriceLevel) (ls : List PriceLevel) (os : List Order)
    → length os + length (all_orders ls) < fuel
    → walk fuel (skip_exhausted_levels (l ∷ ls) os) ≡ some (os ++ all_orders ls)
unfolding walk skip_exhausted_levels all_orders is_end deref advance
walk-skip zero l ls os h = absurd (omega (arith, h))
walk-skip (suc fuel) l [] [] h = refl
walk-skip (suc fuel) l (m ∷ ls) [] h =
    walk-skip (suc fuel) m ls m.orders (omega (arith, h, length-append m.orders (all_orders ls)))
walk-skip (suc fuel) l ls (o ∷ os) h =
    ap (λ x. x >>= λ rest. some (o ∷ rest)) (walk-skip fuel l ls os (omega (arith, h)))

-- A loop from begin to end over a side visits every order of it exactly once, best level first and in
-- the order of the queue within a level, also where a level is empty; it never dereferences or advances
-- the end; and as many rounds as there are orders, and one, are enough.
pub walk-begin_at :
    (fuel : ℕ) (levels : List PriceLevel)
    → length (all_orders levels) < fuel
    → walk fuel (begin_at levels) ≡ some (all_orders levels)
unfolding begin_at all_orders walk is_end
walk-begin_at zero levels h = absurd (omega (arith, h))
walk-begin_at (suc fuel) [] h = refl
walk-begin_at (suc fuel) (l ∷ ls) h =
    walk-skip (suc fuel) l ls l.orders (omega (arith, h, length-append l.orders (all_orders ls)))
