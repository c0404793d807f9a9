-- ===== src/Tests/Entry.antt =====
-- The theorems on submit at concrete orders.
use multithreaded_exchange_s.Entry.Rest.{rest_order-ComesToRest, ComesToRest}
use multithreaded_exchange_s.Prelude.{
  true, [], none, ◌+◌, ◌≡◌, refl, false, some, arith, All, ◌>>=◌,
}
use multithreaded_exchange_s.Strategy.Facts.{RestsAt}
use multithreaded_exchange_s.Book.Commit.{rest_order, commit_submit}
use multithreaded_exchange_s.PriceLevel.{make_level}
use multithreaded_exchange_s.Book.Plan.{PreparedSubmit, prepare_submit}
use multithreaded_exchange_s.Order.{
  resting_price, Order, replenish, needs_replenish, on_partial_fill, is_filled, crosses,
  visible_qty,
}
use multithreaded_exchange_s.OrderBook.{OrderBook, empty_side}
use multithreaded_exchange_s.Entry.Cancel.{cancel-find}
use multithreaded_exchange_s.Book.Types.{Book, find, ModifyStatus}
use multithreaded_exchange_s.Entry.Reject.{cancel-modify_absent, submit-duplicate}
use multithreaded_exchange_s.Tests.{
  sell_five, buy_hidden-IsLive, buy_eleven-IsLive, buy_hidden, offered-BookOk, ask_side, buy_eleven,
  offered,
}
use multithreaded_exchange_s.Book.{InvalidOrder, cancel, modify, Submitted, submit}
use multithreaded_exchange_s.Entry.{sweep_for, entered}
use multithreaded_exchange_s.Prelude.Word.{sub64}
use multithreaded_exchange_s.Entry.Submit.{submit-entered, book_after, entry_of}
use multithreaded_exchange_s.Prelude.Int.{pos}
use multithreaded_exchange_s.Entry.Valid.{TradesClean}
use multithreaded_exchange_s.Entry.Fills.{submit-Fair, QuantityKept, Fair}
use multithreaded_exchange_s.Entry.Refine.{prepare-commit-entered}
use multithreaded_exchange_s.Validity.{BookOk, SideOk, count_levels}
use multithreaded_exchange_s.Entry.Iceberg.{iceberg_breaks, plain-TradesClean}
use multithreaded_exchange_s.Strategy.Match.{settled, match_queue}
use multithreaded_exchange_s.Types.{Side, opposite}
use multithreaded_exchange_s.Queue.Ids.{count_node}
use multithreaded_exchange_s.Entry.Aggressor.{sum_fills}
use multithreaded_exchange_s.Matching.{sweep}

buy_eleven-clean : TradesClean buy_eleven ask_side
unfolding visible_qty
buy_eleven-clean = plain-TradesClean Side.sell buy_eleven ask_side offered-BookOk.asks refl

buy_eleven-new : count_levels 3 offered.bids.levels + count_levels 3 offered.asks.levels ≡ 0
unfolding count_levels count_node
buy_eleven-new = refl

submit-entered_example :
    (submit offered (some buy_eleven)
      ≡ some
          (Submitted.returned (entry_of offered buy_eleven).result (book_after offered buy_eleven)))
    × BookOk (book_after offered buy_eleven)
unfolding opposite
submit-entered_example =
    submit-entered offered buy_eleven offered-BookOk buy_eleven-IsLive buy_eleven-new
      buy_eleven-clean

after_eleven :
    submit offered (some buy_eleven)
    ≡ some (Submitted.returned (entry_of offered buy_eleven).result (book_after offered buy_eleven))
unfolding opposite
after_eleven =
    (submit-entered offered buy_eleven offered-BookOk buy_eleven-IsLive buy_eleven-new
      buy_eleven-clean).0

submit-Fair_example :
    All (Fair buy_eleven) (entry_of offered buy_eleven).result.fills
    × QuantityKept buy_eleven (entry_of offered buy_eleven).result
unfolding opposite
submit-Fair_example =
    submit-Fair offered buy_eleven (entry_of offered buy_eleven).result
      (book_after offered buy_eleven) offered-BookOk buy_eleven-IsLive buy_eleven-new
      buy_eleven-clean after_eleven

prepare-commit-entered_example :
    (prepare_submit ask_side buy_hidden >>= λ p. commit_submit Side.buy empty_side ask_side 3 p)
    ≡ some (entered Side.buy empty_side ask_side 3 buy_hidden)
unfolding opposite
prepare-commit-entered_example =
    prepare-commit-entered Side.buy empty_side ask_side 3 buy_hidden (omega arith)
      offered-BookOk.asks

-- The iceberg of two on display takes all seventeen, and thirteen are left.
buy_hidden-takes : sum_fills (sweep_for buy_hidden ask_side).fills ≡ 17
unfolding sum_fills sweep match_queue crosses visible_qty settled is_filled on_partial_fill
    needs_replenish replenish sub64
buy_hidden-takes = refl

buy_hidden-free : (sweep_for buy_hidden ask_side).blocked ≡ false
unfolding sweep match_queue crosses visible_qty settled is_filled on_partial_fill needs_replenish
    replenish sub64
buy_hidden-free = refl

iceberg_breaks_example : ¬ SideOk Side.buy (entered Side.buy empty_side ask_side 3 buy_hidden).own
unfolding opposite
iceberg_breaks_example =
    iceberg_breaks Side.buy empty_side ask_side 3 buy_hidden (pos 103) 2 2
      (entered Side.buy empty_side ask_side 3 buy_hidden) offered-BookOk.asks buy_hidden-IsLive refl
      (omega (arith, buy_hidden-takes)) (omega (arith, buy_hidden-takes)) buy_hidden-free
      (prepare-commit-entered Side.buy empty_side ask_side 3 buy_hidden (omega arith)
        offered-BookOk.asks)

abbrev on_new_level : PreparedSubmit
on_new_level = record {
  match_plan = record { fills = []; aggressor_filled = 0; self_match_blocked = false };
  holding = [];
  position = 3;
  level_node = some (make_level (pos 102));
  index_node = some 3;
  rest_price = pos 102;
  will_rest = true;
}

buy_eleven-RestsAt : RestsAt Side.buy (pos 102) buy_eleven
unfolding resting_price
buy_eleven-RestsAt = record { live = buy_eleven-IsLive; rests = refl; on_side = refl }

rest_order-ComesToRest_example :
    (after : OrderBook) × (rest_order Side.buy empty_side on_new_level buy_eleven ≡ some after)
    × ComesToRest Side.buy (pos 102) buy_eleven empty_side after
unfolding count_levels
rest_order-ComesToRest_example =
    rest_order-ComesToRest Side.buy (pos 102) empty_side buy_eleven on_new_level refl refl refl refl
      buy_eleven-RestsAt refl offered-BookOk.bids

-- Another order of an id that rests.
abbrev again : Order
again = record sell_five { remaining = 1; account = 60 }

submit-duplicate_example :
    (submit offered (some again) ≡ some (Submitted.thrown InvalidOrder.duplicate_id))
    × (r : Order) × (find 1 offered ≡ some r)
    × (r.id ≡ 1)
unfolding count_levels count_node
submit-duplicate_example = submit-duplicate offered again offered-BookOk (omega arith) (omega arith)

cancel-modify_absent_example :
    (cancel 9 offered ≡ some (none, offered))
    × (modify offered 9 4 none
        ≡ some (record { status = ModifyStatus.not_found; fills = []; resting_qty = 0 }, offered))
unfolding count_levels count_node
cancel-modify_absent_example =
    cancel-modify_absent offered 9 4 none offered-BookOk (omega arith) (omega arith)

cancel-find_example :
    (o : Order) × (after : Book) × (cancel 2 offered ≡ some (some o, after))
    × (find 2 offered ≡ some o)
    × (o.id ≡ 2)
    × (find 2 after ≡ none)
unfolding count_levels count_node
cancel-find_example = cancel-find offered 2 offered-BookOk (omega arith)
