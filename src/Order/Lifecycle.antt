-- ===== src/Order/Lifecycle.antt =====
-- What each operation of core/order.cpp does to a live order.
use multithreaded_exchange_s.Prelude.{
  min, Option, none, some, ℕ, ◌+◌, ◌≤◌, ◌<◌, ◌≡◌, refl, if◌then◌else◌, arith,
}
use multithreaded_exchange_s.Prelude.Int.{ℤ}
use multithreaded_exchange_s.Prelude.Word.{u64_mod, sub64_exact}
use multithreaded_exchange_s.Order.{
  Kind, Order, visible_qty, display_size, on_partial_fill, needs_replenish, replenish, amend,
  reduce_to, clone_amended, resting_price,
}

-- An order that may rest: it has quantity, shows some of it and no more than it has.
pub record IsLive (o : Order) : Type 0 where
  pub shows : 0 < visible_qty o
  pub shown : visible_qty o ≤ o.remaining
  pub refills : 0 < display_size o
  pub fits : o.remaining < u64_mod

-- A fill of at most the visible quantity takes exactly that much from both counters.
pub record FillEffect (o : Order) (q : ℕ) (o' : Order) : Type 0 where
  pub remaining : o'.remaining + q ≡ o.remaining
  pub visible : visible_qty o' + q ≡ visible_qty o
  pub id : o'.id ≡ o.id
  pub account : o'.account ≡ o.account

fill_kind :
    (o : Order) (q : ℕ) (k : Kind)
    → o.kind ≡ k
    → IsLive o
    → q ≤ visible_qty o
    → FillEffect o q (on_partial_fill o q)
unfolding visible_qty on_partial_fill
fill_kind o q (Kind.limit l) e v h = ground (arith, sub64_exact o.remaining q)
fill_kind o q Kind.market e v h = ground (arith, sub64_exact o.remaining q)
fill_kind o q (Kind.iceberg l d w) e v h =
    ground (arith, sub64_exact o.remaining q, sub64_exact w q)

-- A fill of a live order of at most what it shows takes exactly that much, with no wrap-around, from
-- what it has and from what it shows, and keeps its id and account.
pub on_partial_fill-FillEffect :
    (o : Order) (q : ℕ) → IsLive o → q ≤ visible_qty o → FillEffect o q (on_partial_fill o q)
on_partial_fill-FillEffect o q v h = fill_kind o q o.kind refl v h

-- What commitSubmit leaves of a resting order that is not consumed: the order itself, or the order
-- with its next tranche on display.
abbrev pub refreshed : Order → Order
refreshed o = if needs_replenish o then replenish o else o

fill-IsLive_kind :
    (o : Order) (q : ℕ) (k : Kind)
    → o.kind ≡ k
    → IsLive o
    → q ≤ visible_qty o
    → q < o.remaining
    → IsLive (refreshed (on_partial_fill o q))
unfolding visible_qty on_partial_fill needs_replenish replenish display_size
fill-IsLive_kind o q (Kind.limit l) e v h lt = ground (arith, sub64_exact o.remaining q)
fill-IsLive_kind o q Kind.market e v h lt = ground (arith, sub64_exact o.remaining q)
fill-IsLive_kind o q (Kind.iceberg l d w) e v h lt =
    ground (arith, sub64_exact o.remaining q, sub64_exact w q)

-- A live order that a fill of at most what it shows leaves with a remainder is live again after the
-- refresh that commitSubmit makes.
pub fill-refresh-IsLive :
    (o : Order) (q : ℕ)
    → IsLive o
    → q ≤ visible_qty o
    → q < o.remaining
    → IsLive (refreshed (on_partial_fill o q))
fill-refresh-IsLive o q v h lt = fill-IsLive_kind o q o.kind refl v h lt

reduce-IsLive_kind :
    (o : Order) (q : ℕ) (k : Kind)
    → o.kind ≡ k
    → IsLive o
    → 0 < q
    → q ≤ o.remaining
    → IsLive (reduce_to o q) × (visible_qty (reduce_to o q) ≤ visible_qty o)
unfolding visible_qty reduce_to display_size
reduce-IsLive_kind o q (Kind.limit l) e v h lt = ground arith
reduce-IsLive_kind o q Kind.market e v h lt = ground arith
reduce-IsLive_kind o q (Kind.iceberg l d w) e v h lt = ground arith

-- A reduction of a live order to a positive quantity of at most what it has keeps it live, and never
-- shows more than before.
pub reduce_to-IsLive :
    (o : Order) (q : ℕ)
    → IsLive o
    → 0 < q
    → q ≤ o.remaining
    → IsLive (reduce_to o q) × (visible_qty (reduce_to o q) ≤ visible_qty o)
reduce_to-IsLive o q v h lt = reduce-IsLive_kind o q o.kind refl v h lt

-- The new price, for an order that has one, and what a copy of a quantity shows.
abbrev amended_price : Option ℤ → ℤ → Option ℤ
amended_price none p = none
amended_price (some l) p = some p

abbrev amended_shown : Kind → ℕ → ℕ
amended_shown (Kind.limit l) q = q
amended_shown Kind.market q = q
amended_shown (Kind.iceberg l d v) q = min d q

-- A copy of an order under amended terms.
pub record IsAmended (o : Order) (q : ℕ) (p : ℤ) (n : Order) : Type 0 where
  pub id : n.id ≡ o.id
  pub account : n.account ≡ o.account
  pub side : n.side ≡ o.side
  pub quantity : n.remaining ≡ q
  pub price : resting_price n ≡ amended_price (resting_price o) p
  pub shown : visible_qty n ≡ amended_shown o.kind q
  pub refill : display_size n ≡ amended_shown o.kind q
  pub live : IsLive n

clone_kind-IsAmended :
    (o : Order) (q : ℕ) (p : ℤ) (k : Kind)
    → o.kind ≡ k
    → IsLive o
    → 0 < q
    → q < u64_mod
    → IsAmended o q p (clone_amended o q p)
unfolding visible_qty clone_amended display_size resting_price
clone_kind-IsAmended o q p (Kind.limit l) e v h lt = ground arith
clone_kind-IsAmended o q p Kind.market e v h lt = ground arith
clone_kind-IsAmended o q p (Kind.iceberg l d w) e v h lt = ground arith

-- The copy of a live order under amended terms, for a positive quantity that fits 64 bits: it keeps the
-- id, the account and the side; it has the new quantity and, where the order has a price, the new price;
-- it shows its whole quantity, or for an iceberg no more than the display, now and at each refill; and it
-- is live.
pub clone_amended-IsAmended :
    (o : Order) (q : ℕ) (p : ℤ)
    → IsLive o
    → 0 < q
    → q < u64_mod
    → IsAmended o q p (clone_amended o q p)
clone_amended-IsAmended o q p v h lt = clone_kind-IsAmended o q p o.kind refl v h lt

amend-IsLive_kind :
    (o : Order) (q : ℕ) (p : ℤ) (k : Kind)
    → o.kind ≡ k
    → IsLive o
    → 0 < q
    → q < u64_mod
    → IsLive (amend o q p)
unfolding visible_qty amend display_size
amend-IsLive_kind o q p (Kind.limit l) e v h lt = ground arith
amend-IsLive_kind o q p Kind.market e v h lt = ground arith
amend-IsLive_kind o q p (Kind.iceberg l d w) e v h lt = ground arith

-- An amendment to a positive quantity keeps the order live.
pub amend-IsLive :
    (o : Order) (q : ℕ) (p : ℤ) → IsLive o → 0 < q → q < u64_mod → IsLive (amend o q p)
amend-IsLive o q p v h lt = amend-IsLive_kind o q p o.kind refl v h lt
