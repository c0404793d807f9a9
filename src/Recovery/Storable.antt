-- ===== src/Recovery/Storable.antt =====
-- buildOrder of net/server.cpp and encodeRecord of store/wal_record.cpp: which of the orders that reach
-- the engine from the network their records give back.
use multithreaded_exchange_s.WalRecord.Torn.{decode-encode_record}
use multithreaded_exchange_s.Prelude.{
  length, ◌++◌, List, min, lt→ltb, arith, inr, inl, ◌==◌, Bool-cases, ◌^◌, ◌<◌, ℕ, ◌≡◌, refl, ap,
  subst, ◌∙◌,
}
use multithreaded_exchange_s.WalRecord.{ReadResult, encode_record, decode_record}
use multithreaded_exchange_s.Server.{build_kind, Built, build_order}
use multithreaded_exchange_s.Wire.RoundTrip.{FitsI64}
use multithreaded_exchange_s.WalRecord.RoundTrip.{stored_order}
use multithreaded_exchange_s.Order.{
  display_size, Order, resting_price, make_iceberg, make_market, make_limit,
}
use multithreaded_exchange_s.Command.{Command}
use multithreaded_exchange_s.Prelude.Int.{ℤ}
use multithreaded_exchange_s.Recovery.Live.{IsStorable}
use multithreaded_exchange_s.Types.{Side}
use multithreaded_exchange_s.Protocol.{OrderKind}

-- The fields of a message fit their widths, and an iceberg does not show its whole quantity.
pub record IsRecordable (i a : ℕ) (k : OrderKind) (p : ℤ) (q d : ℕ) : Type 0 where
  pub id : i < 2 ^ 64
  pub account : a < 2 ^ 32
  pub price : FitsI64 p
  pub quantity : q < 2 ^ 64
  pub display : d < 2 ^ 64
  pub hides : k ≡ OrderKind.iceberg → d < q

-- Where a message makes an order, its record gives it back.
abbrev StoredOf : Built → Type 0
StoredOf (Built.built o) = IsStorable (Command.submit o)
StoredOf Built.no_quantity = Unit
StoredOf Built.no_display = Unit

build_kind-StoredOf :
    (i a : ℕ) (s : Side) (k : OrderKind) (p : ℤ) (q d : ℕ)
    → IsRecordable i a k p q d
    → StoredOf (build_kind k i a s p q d)
unfolding make_limit make_market make_iceberg resting_price display_size stored_order
build_kind-StoredOf i a s OrderKind.limit p q d r = record {
  fits = (r.id, r.account, r.price, r.quantity, r.quantity);
  kept = refl;
}
build_kind-StoredOf i a s OrderKind.market p q d r = record {
  fits = (r.id, r.account, (omega arith, omega arith), r.quantity, r.quantity);
  kept = refl;
}
build_kind-StoredOf i a s OrderKind.iceberg p q d r = elim (Bool-cases (d == 0)) [
  | inl z ↦ rw z tt
  | inr z ↦
      let less = lt→ltb d q (r.hides refl) in
      let shown : min d q ≡ d = omega (arith, r.hides refl) in
      rw (z, shown)
        (record {
          fits = (r.id, r.account, r.price, r.quantity, r.display);
          kept = rw (less, z, shown) refl;
        })
]

-- The order of such a message, where the server makes one, is given back.
pub build_order-IsStorable :
    (i a : ℕ) (s : Side) (k : OrderKind) (p : ℤ) (q d : ℕ) (o : Order)
    → IsRecordable i a k p q d
    → build_order i a s k p q d ≡ Built.built o
    → IsStorable (Command.submit o)
unfolding build_order
build_order-IsStorable i a s k p q d o r e = subst StoredOf e (elim (Bool-cases (q == 0)) [
  | inl z ↦ rw z tt
  | inr z ↦ rw z (build_kind-StoredOf i a s k p q d r)
])

-- A message whose fields fit their widths and whose tranche, if it is an iceberg's, is less than its
-- quantity. Where the server makes an order of it, the record of its submission decodes, whatever bytes
-- follow, to the submission of that order itself, with its kind, its price, its tranche and what it shows.
pub build_order-decode_record :
    (i a : ℕ) (s : Side) (k : OrderKind) (p : ℤ) (q d : ℕ) (o : Order) (sequence : ℕ)
    (more : List ℕ)
    → IsRecordable i a k p q d
    → build_order i a s k p q d ≡ Built.built o
    → sequence < 2 ^ 64
    → decode_record (encode_record sequence (Command.submit o) ++ more)
      ≡ ReadResult.read_ok
          (record { sequence = sequence; command = Command.submit o })
          (length (encode_record sequence (Command.submit o)))
build_order-decode_record i a s k p q d o sequence more r e w =
    let storable = build_order-IsStorable i a s k p q d o r e in
    decode-encode_record sequence (Command.submit o) more w storable.fits
    ∙ ap
        (λ c.
          ReadResult.read_ok (record { sequence = sequence; command = c })
            (length (encode_record sequence (Command.submit o))))
        storable.kept
