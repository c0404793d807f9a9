-- ===== src/Server/Admission.antt =====
-- net/server.cpp, buildOrder: what reaches the engine from the network.
use multithreaded_exchange_s.Server.{build_kind, Built, build_order}
use multithreaded_exchange_s.Order.{
  Kind, Order, display_size, make_iceberg, make_market, visible_qty, make_limit, resting_price,
}
use multithreaded_exchange_s.Order.Lifecycle.{IsLive}
use multithreaded_exchange_s.Prelude.Int.{ℤ}
use multithreaded_exchange_s.Types.{Side}
use multithreaded_exchange_s.Protocol.{OrderKind}
use multithreaded_exchange_s.Prelude.{
  ℕ, ◌^◌, ◌<◌, min, ◌≡◌, refl, inl, inr, Option, none, some, arith, ◌==◌, Bool-cases,
}

-- The price that an order of a kind may rest at, and the quantity that it shows.
abbrev pub asked_price : OrderKind → ℤ → Option ℤ
asked_price OrderKind.limit price = some price
asked_price OrderKind.market price = none
asked_price OrderKind.iceberg price = some price

abbrev pub asked_shown : OrderKind → ℕ → ℕ → ℕ
asked_shown OrderKind.limit quantity display = quantity
asked_shown OrderKind.market quantity display = quantity
asked_shown OrderKind.iceberg quantity display = min display quantity

-- The order that a message asks for.
pub record IsAsked (i a : ℕ) (s : Side) (k : OrderKind) (p : ℤ) (q d : ℕ) (o : Order) : Type 0 where
  pub id : o.id ≡ i
  pub account : o.account ≡ a
  pub side : o.side ≡ s
  pub quantity : o.remaining ≡ q
  pub price : resting_price o ≡ asked_price k p
  pub shown : visible_qty o ≡ asked_shown k q d
  pub live : IsLive o

-- How buildOrder ends.
pub data Builds (i a : ℕ) (s : Side) (k : OrderKind) (p : ℤ) (q d : ℕ) : Built → Type 0 where
  built : (o : Order) → 0 < q → IsAsked i a s k p q d o → Builds i a s k p q d (Built.built o)
  no_quantity : q ≡ 0 → Builds i a s k p q d Built.no_quantity
  no_display : 0 < q → k ≡ OrderKind.iceberg → d ≡ 0 → Builds i a s k p q d Built.no_display

make_iceberg-IsAsked :
    (i a : ℕ) (s : Side) (p : ℤ) (q d size : ℕ)
    → 0 < q
    → q < 2 ^ 64
    → 0 < d
    → size ≡ min d q
    → IsAsked i a s OrderKind.iceberg p q d (record {
      id = i;
      remaining = q;
      sequence = 0;
      account = a;
      side = s;
      kind = Kind.iceberg p size size;
    })
unfolding resting_price visible_qty display_size
make_iceberg-IsAsked i a s p q d size h w k e = record {
  id = refl;
  account = refl;
  side = refl;
  quantity = refl;
  price = refl;
  shown = e;
  live = record {
    shows = omega (arith, h, k, e);
    shown = omega (arith, e);
    refills = omega (arith, h, k, e);
    fits = w;
  };
}

build_kind-Builds :
    (i a : ℕ) (s : Side) (k : OrderKind) (p : ℤ) (q d : ℕ)
    → 0 < q
    → q < 2 ^ 64
    → Builds i a s k p q d (build_kind k i a s p q d)
unfolding make_limit make_market make_iceberg resting_price visible_qty display_size
build_kind-Builds i a s OrderKind.limit p q d h w = Builds.built _ h (record {
  id = refl;
  account = refl;
  side = refl;
  quantity = refl;
  price = refl;
  shown = refl;
  live = record { shows = h; shown = omega arith; refills = h; fits = w };
})
build_kind-Builds i a s OrderKind.market p q d h w = Builds.built _ h (record {
  id = refl;
  account = refl;
  side = refl;
  quantity = refl;
  price = refl;
  shown = refl;
  live = record { shows = h; shown = omega arith; refills = h; fits = w };
})
build_kind-Builds i a s OrderKind.iceberg p q d h w = elim (Bool-cases (d == 0)) [
  | inl z ↦ simp z (Builds.no_display h refl (ground arith))
  | inr z ↦
      simp z (Builds.built _ h (make_iceberg-IsAsked i a s p q d (min d q) h w (ground arith) refl))
]

-- The server makes no order of a quantity of zero, nor an iceberg that would show none. From any other
-- message, with a quantity of 64 bits, it makes the order that the message asks for: with its identifier,
-- account, side, quantity and price, showing all of it or the tranche, and live, as the book needs its
-- orders.
pub build_order-Builds :
    (i a : ℕ) (s : Side) (k : OrderKind) (p : ℤ) (q d : ℕ)
    → q < 2 ^ 64
    → Builds i a s k p q d (build_order i a s k p q d)
unfolding build_order
build_order-Builds i a s k p q d w = elim (Bool-cases (q == 0)) [
  | inl z ↦ rw z (Builds.no_quantity (ground arith))
  | inr z ↦ rw z (build_kind-Builds i a s k p q d (ground arith) w)
]
