-- ===== src/Order.antt =====
-- core/order.hpp and core/order.cpp: the order hierarchy. A subclass is a constructor of `Kind`,
-- and a virtual function dispatches on it. Assertions are compiled out (RelWithDebInfo defines
-- NDEBUG), so a subtraction wraps where its assertion would have failed.
pub mod Lifecycle
use multithreaded_exchange_s.Prelude.{
  ℕ, Bool, true, not, ◌&&◌, Option, none, some, min, ltb, ◌==◌, if◌then◌else◌,
}
use multithreaded_exchange_s.Prelude.Int.{ℤ, ltb_ℤ}
use multithreaded_exchange_s.Prelude.Word.{sub64}
use multithreaded_exchange_s.Types.{Side}

-- LimitOrder with its limit, MarketOrder, IcebergOrder with its limit, display_ and visible_.
pub data Kind : Type 0 where
  limit : ℤ → Kind
  market : Kind
  iceberg : ℤ → ℕ → ℕ → Kind

pub record Order : Type 0 where
  pub id : ℕ
  pub remaining : ℕ
  pub sequence : ℕ
  pub account : ℕ
  pub side : Side
  pub kind : Kind

unfoldable pub is_filled : Order → Bool
is_filled o = o.remaining == 0

unfoldable pub assign_sequence : Order → ℕ → Order
assign_sequence o s = record o { sequence = s }

-- LimitOrder::crosses on a limit and the best opposite price.
abbrev pub limit_crosses : Side → ℤ → ℤ → Bool
limit_crosses Side.buy l best = not (ltb_ℤ l best)
limit_crosses Side.sell l best = not (ltb_ℤ best l)

abbrev pub kind_crosses : Kind → Side → ℤ → Bool
kind_crosses (Kind.limit l) s best = limit_crosses s l best
kind_crosses Kind.market s best = true
kind_crosses (Kind.iceberg l d v) s best = limit_crosses s l best

unfoldable pub crosses : Order → ℤ → Bool
crosses o best = kind_crosses o.kind o.side best

abbrev pub kind_resting_price : Kind → Option ℤ
kind_resting_price (Kind.limit l) = some l
kind_resting_price Kind.market = none
kind_resting_price (Kind.iceberg l d v) = some l

unfoldable pub resting_price : Order → Option ℤ
resting_price o = kind_resting_price o.kind

abbrev pub kind_visible : Kind → ℕ → ℕ
kind_visible (Kind.iceberg l d v) r = v
kind_visible (Kind.limit l) r = r
kind_visible Kind.market r = r

unfoldable pub visible_qty : Order → ℕ
visible_qty o = kind_visible o.kind o.remaining

abbrev pub kind_display : Kind → ℕ → ℕ
kind_display (Kind.iceberg l d v) r = d
kind_display (Kind.limit l) r = r
kind_display Kind.market r = r

unfoldable pub display_size : Order → ℕ
display_size o = kind_display o.kind o.remaining

abbrev pub kind_fill : Kind → ℕ → Kind
kind_fill (Kind.iceberg l d v) q = Kind.iceberg l d (sub64 v q)
kind_fill (Kind.limit l) q = Kind.limit l
kind_fill Kind.market q = Kind.market

unfoldable pub on_partial_fill : Order → ℕ → Order
on_partial_fill o q = record o { remaining = sub64 o.remaining q; kind = kind_fill o.kind q }

unfoldable pub needs_replenish : Order → Bool
unfolding visible_qty
needs_replenish o = ltb 0 o.remaining && visible_qty o == 0

abbrev pub kind_replenish : Kind → ℕ → Kind
kind_replenish (Kind.iceberg l d v) r = Kind.iceberg l d (min d r)
kind_replenish (Kind.limit l) r = Kind.limit l
kind_replenish Kind.market r = Kind.market

unfoldable pub replenish : Order → Order
replenish o = record o { kind = kind_replenish o.kind o.remaining }

abbrev pub kind_amend : Kind → ℕ → ℤ → Kind
kind_amend (Kind.iceberg l d v) q p = Kind.iceberg p (min d q) (min (min d q) q)
kind_amend (Kind.limit l) q p = Kind.limit p
kind_amend Kind.market q p = Kind.market

unfoldable pub amend : Order → ℕ → ℤ → Order
amend o q p = record o { remaining = q; kind = kind_amend o.kind q p }

abbrev pub kind_reduce : Kind → ℕ → Kind
kind_reduce (Kind.iceberg l d v) q = Kind.iceberg l (min d q) (min v q)
kind_reduce (Kind.limit l) q = Kind.limit l
kind_reduce Kind.market q = Kind.market

unfoldable pub reduce_to : Order → ℕ → Order
reduce_to o q = record o { remaining = q; kind = kind_reduce o.kind q }

-- The three constructors, which leave the sequence at 0.
unfoldable pub make_limit : ℕ → Side → ℕ → ℕ → ℤ → Order
make_limit id side account qty l = record {
  id = id;
  remaining = qty;
  sequence = 0;
  account = account;
  side = side;
  kind = Kind.limit l;
}

unfoldable pub make_market : ℕ → Side → ℕ → ℕ → Order
make_market id side account qty = record {
  id = id;
  remaining = qty;
  sequence = 0;
  account = account;
  side = side;
  kind = Kind.market;
}

abbrev pub clamp_display : ℕ → ℕ → ℕ
clamp_display total size = if size == 0 then total else min size total

unfoldable pub make_iceberg : ℕ → Side → ℕ → ℕ → ℤ → ℕ → Order
make_iceberg id side account total l size = record {
  id = id;
  remaining = total;
  sequence = 0;
  account = account;
  side = side;
  kind = Kind.iceberg l (clamp_display total size) (clamp_display total size);
}

-- The virtual cloneAmended: dispatches on the kind of the order that is cloned.
abbrev pub clone_kind : Order → Kind → ℕ → ℤ → Order
clone_kind o (Kind.iceberg l d v) q p = make_iceberg o.id o.side o.account q p d
clone_kind o (Kind.limit l) q p = make_limit o.id o.side o.account q p
clone_kind o Kind.market q p = make_market o.id o.side o.account q

unfoldable pub clone_amended : Order → ℕ → ℤ → Order
unfolding make_limit make_market make_iceberg
clone_amended o q p = clone_kind o o.kind q p
