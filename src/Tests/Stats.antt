-- ===== src/Tests/Stats.antt =====
-- The theorems on the iterator and the statistics of a side, at the offers and a level that is empty.
use multithreaded_exchange_s.Tests.{offered-BookOk, ask_side, offers}
use multithreaded_exchange_s.SideStats.Through.{qty_through-available, available}
use multithreaded_exchange_s.Prelude.Word.{u64_mod}
use multithreaded_exchange_s.BookIterator.Walk.{walk-begin_at, all_orders}
use multithreaded_exchange_s.BookIterator.{begin_at, walk}
use multithreaded_exchange_s.Prelude.Int.{pos}
use multithreaded_exchange_s.Types.{Side}
use multithreaded_exchange_s.SideStats.{qty_through}
use multithreaded_exchange_s.PriceLevel.{PriceLevel}
use multithreaded_exchange_s.Prelude.{◌%◌, ◌≡◌, some, List, [], ◌∷◌, arith}

abbrev some_levels : List PriceLevel
some_levels = record { price = pos 100; orders = []; total_qty = 0; visible_qty = 0 } ∷ offers ∷ []

walk-begin_at_example : walk 3 (begin_at some_levels) ≡ some (all_orders some_levels)
unfolding all_orders
walk-begin_at_example = walk-begin_at 3 some_levels (omega arith)

qty_through-available_example :
    qty_through Side.sell ask_side (pos 105)
    ≡ available Side.sell (pos 105) ask_side.levels % u64_mod
qty_through-available_example =
    qty_through-available Side.sell ask_side (pos 105) offered-BookOk.asks
