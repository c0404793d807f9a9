-- ===== src/Book.antt =====
-- core/book.hpp and core/book.cpp: submit, cancel and modify. The strategy is the default one,
-- price-time. `none` is undefined behaviour: a broken precondition or a dangling iterator.
pub mod Types
pub mod Plan
pub mod Commit
use multithreaded_exchange_s.Prelude.{
  ℕ, Bool, false, not, ◌&&◌, [], Option, none, some, ltb, ◌==◌, if◌then◌else◌, precondition, ◌>>=◌,
}
use multithreaded_exchange_s.Prelude.Int.{ℤ, eqb_ℤ}
use multithreaded_exchange_s.Types.{Side, opposite}
use multithreaded_exchange_s.Order.{Order, resting_price, clone_amended}
use multithreaded_exchange_s.PriceLevel.{reduce_quantity}
use multithreaded_exchange_s.OrderBook
use multithreaded_exchange_s.OrderBook.{OrderBook, set_level, locate, is_none}
use Types.{Book, SubmitResult, ModifyResult, ModifyStatus, side_of, with_sides, is_crossed, find}
use Plan.{prepare_submit}
use Commit.{commit_submit}

-- What `submit` throws.
pub data InvalidOrder : Type 0 where
  null_order zero_quantity duplicate_id : InvalidOrder

unfoldable pub validate : Book → Order → Option InvalidOrder
validate b o =
    if o.remaining == 0
    then some InvalidOrder.zero_quantity
    else if is_none (find o.id b)
    then none
    else some InvalidOrder.duplicate_id

-- Prepare and commit on the two sides that the order's side selects, with the final check.
unfoldable pub enter : Side → Book → Order → Option (SubmitResult × Book)
enter side b o = do
  prepared ← prepare_submit (side_of (opposite side) b) o
  c ← commit_submit side (side_of side b) (side_of (opposite side) b) b.next_sequence prepared
  let after = with_sides side c.own c.opp c.next_sequence
  precondition (not (is_crossed after)) >>= λ _. some (c.result, after)

pub data Submitted : Type 0 where
  thrown : InvalidOrder → Submitted
  returned : SubmitResult → Book → Submitted

unfoldable pub submit : Book → Option Order → Option Submitted
submit b none = some (Submitted.thrown InvalidOrder.null_order)
submit b (some o) = elim (validate b o) [
  | some e ↦ some (Submitted.thrown e)
  | none ↦ enter o.side b o >>= λ out. some (Submitted.returned out.0 out.1)
]

unfoldable pub cancel : ℕ → Book → Option (Option Order × Book)
cancel id b = do
  out ← OrderBook.cancel id b.bids
  elim out.0 [
    | some o ↦ some (some o, record b { bids = out.1 })
    | none ↦ OrderBook.cancel id b.asks >>= λ other.
        some (other.0, record b { bids = out.1; asks = other.1 })
  ]

unfoldable pub reduce_in_place : ℕ → ℕ → OrderBook → Option OrderBook
reduce_in_place id new_qty s = do
  at ← locate id s
  l ← reduce_quantity at.0 at.1 new_qty
  some (record s { levels = set_level l.price l s.levels })

unfoldable pub requeue : Side → Book → ℕ → ℕ → ℤ → Option (ModifyResult × Book)
requeue side b id new_qty target = do
  o ← OrderBook.find id (side_of side b)
  prepared ← prepare_submit (side_of (opposite side) b) (clone_amended o new_qty target)
  withdrawn ← OrderBook.cancel id (side_of side b)
  precondition (not (is_none withdrawn.0)) >>= λ _.
      (commit_submit side withdrawn.1 (side_of (opposite side) b) b.next_sequence prepared >>= λ c.
      some (
        record {
          status = ModifyStatus.requeued;
          fills = c.result.fills;
          resting_qty = c.result.resting_qty;
        },
        with_sides side c.own c.opp c.next_sequence,
      ))

abbrev pub price_moves : Option ℤ → ℤ → Bool
price_moves none current = false
price_moves (some p) current = not (eqb_ℤ p current)

abbrev pub value_or : Option ℤ → ℤ → ℤ
value_or none current = current
value_or (some p) current = p

-- The rest of modify once the order is found on `side`.
unfoldable pub modify_resting :
    Side → Book → Order → ℕ → ℕ → Option ℤ → Option (ModifyResult × Book)
modify_resting side b o id new_qty new_price = do
  current ← resting_price o
  if not (price_moves new_price current) && not (ltb o.remaining new_qty)
      then (reduce_in_place id new_qty (side_of side b) >>= λ own. some (
        record { status = ModifyStatus.amended_in_place; fills = []; resting_qty = new_qty },
        with_sides side own (side_of (opposite side) b) b.next_sequence,
      ))
      else requeue side b id new_qty (value_or new_price current)

abbrev no_change : ModifyStatus → Book → Option (ModifyResult × Book)
no_change s b = some (record { status = s; fills = []; resting_qty = 0 }, b)

unfoldable pub modify : Book → ℕ → ℕ → Option ℤ → Option (ModifyResult × Book)
modify b id new_qty new_price =
    if new_qty == 0 then no_change ModifyStatus.rejected b else elim (OrderBook.find id b.bids) [
      | some o ↦ modify_resting Side.buy b o id new_qty new_price
      | none ↦ elim (OrderBook.find id b.asks) [
        | some o ↦ modify_resting Side.sell b o id new_qty new_price
        | none ↦ no_change ModifyStatus.not_found b
      ]
    ]
