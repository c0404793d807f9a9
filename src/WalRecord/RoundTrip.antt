-- ===== src/WalRecord/RoundTrip.antt =====
-- store/wal_record.cpp: decodeRecord against encodeRecord.
use multithreaded_exchange_s.Prelude.Int.{pos, ℤ}
use multithreaded_exchange_s.Wire.RoundTrip.{
  get-put_i64, get-put_u32, get-put_u64, get-put_u8, FitsI64,
}
use multithreaded_exchange_s.Order.{
  kind_display, kind_resting_price, make_iceberg, make_market, Kind, make_limit, Order,
  resting_price, display_size,
}
use multithreaded_exchange_s.Wire.{require_fully_consumed, ok, emit, to_unsigned}
use multithreaded_exchange_s.Protocol.{has_price, price_or_zero}
use multithreaded_exchange_s.WalRecord.{
  cast_side, read_command, stored_kind, encode_payload, make_stored, read_order, read_payload,
}
use multithreaded_exchange_s.Types.{Side, side_code}
use multithreaded_exchange_s.Command.{Command}
use multithreaded_exchange_s.Prelude.{
  ℕ, ◌%◌, ◌^◌, ◌<◌, ◌≡◌, refl, ap, ◌∙◌, inl, inr, true, false, Option, none, some, List, [], ◌∷◌,
  ◌++◌, arith, ltb, if◌then◌else◌, Bool-cases, length,
}

abbrev pub stored_by_kind : Order → Kind → Order
stored_by_kind o (Kind.limit l) = make_limit o.id o.side o.account o.remaining l
stored_by_kind o Kind.market = make_market o.id o.side o.account o.remaining
stored_by_kind o (Kind.iceberg l d v) =
    if ltb d o.remaining
    then make_iceberg o.id o.side o.account o.remaining l d
    else make_limit o.id o.side o.account o.remaining l

-- What the log keeps of an order: a new order of its kind, where an iceberg that shows all it has is
-- a limit order.
unfoldable pub stored_order : Order → Order
unfolding make_limit make_market make_iceberg
stored_order o = stored_by_kind o o.kind

abbrev pub stored_command : Command → Command
stored_command (Command.submit o) = Command.submit (stored_order o)
stored_command (Command.cancel id) = Command.cancel id
stored_command (Command.modify id quantity price) = Command.modify id quantity price

abbrev pub stored_price : Order → ℤ
stored_price o = price_or_zero (resting_price o)

-- The fields fit their widths.
abbrev pub FitsCommand : Command → Type 0
FitsCommand (Command.submit o) =
    (o.id < 2 ^ 64)
    × (o.account < 2 ^ 32)
    × FitsI64 (stored_price o)
    × (o.remaining < 2 ^ 64)
    × (display_size o < 2 ^ 64)
FitsCommand (Command.cancel id) = id < 2 ^ 64
FitsCommand (Command.modify id quantity price) =
    (id < 2 ^ 64) × (quantity < 2 ^ 64) × FitsI64 (price_or_zero price)

abbrev order_bytes : ℕ → Order → List ℕ
order_bytes kind o =
    kind % 256
    ∷ (emit o.id 0 8
        ++ (emit o.account 0 4
            ++ (side_code o.side % 256
                ∷ (emit (to_unsigned (stored_price o)) 0 8
                    ++ (emit o.remaining 0 8 ++ (emit (display_size o) 0 8 ++ []))))))

abbrev command_bytes : Command → List ℕ
command_bytes (Command.submit o) = 1 ∷ order_bytes (stored_kind (resting_price o) o) o
command_bytes (Command.cancel id) = 2 ∷ (emit id 0 8 ++ [])
command_bytes (Command.modify id quantity price) =
    3
    ∷ (emit id 0 8
        ++ (emit quantity 0 8
            ++ (has_price price % 256 ∷ (emit (to_unsigned (price_or_zero price)) 0 8 ++ []))))

payload_bytes :
    (sequence : ℕ) (c : Command)
    → (encode_payload sequence c ≡ emit sequence 0 8 ++ command_bytes c)
      × (length (encode_payload sequence c) < 64)
      × (0 < length (encode_payload sequence c))
unfolding encode_payload emit
payload_bytes sequence (Command.submit o) = (refl, omega arith, omega arith)
payload_bytes sequence (Command.cancel id) = (refl, omega arith, omega arith)
payload_bytes sequence (Command.modify id quantity price) = (refl, omega arith, omega arith)

cast_side-code : (s : Side) → cast_side (side_code s) ≡ s
cast_side-code Side.buy = refl
cast_side-code Side.sell = refl

side_byte : (s : Side) → side_code s < 256
side_byte Side.buy = omega arith
side_byte Side.sell = omega arith

stored_kind-lt : (p : Option ℤ) (o : Order) → stored_kind p o < 256
stored_kind-lt none o = omega arith
stored_kind-lt (some p) o = ground arith

make_stored_kind :
    (o : Order) (k : Kind)
    → o.kind ≡ k
    → make_stored
        (stored_kind (kind_resting_price k) o)
        o.id
        o.account
        o.side
        (price_or_zero (kind_resting_price k))
        o.remaining
        (kind_display k o.remaining)
      ≡ some (stored_by_kind o k)
unfolding make_stored display_size make_limit make_market make_iceberg
make_stored_kind o (Kind.limit l) h =
    let e : display_size o ≡ o.remaining = ap (λ k. kind_display k o.remaining) h in
    let same : ltb (display_size o) o.remaining ≡ false = ground (arith, e) in
    rw (same, make_stored) refl
make_stored_kind o Kind.market h = refl
make_stored_kind o (Kind.iceberg l d v) h =
    let e : display_size o ≡ d = ap (λ k. kind_display k o.remaining) h in
    elim (Bool-cases (ltb d o.remaining)) [
      | inl t ↦
          let same : ltb (display_size o) o.remaining ≡ true = ap (λ n. ltb n o.remaining) e ∙ t in
          rw (same, t, make_stored) refl
      | inr t ↦
          let same : ltb (display_size o) o.remaining ≡ false = ap (λ n. ltb n o.remaining) e ∙ t in
          rw (same, t, make_stored) refl
    ]

make_stored-stored_order :
    (o : Order)
    → make_stored
        (stored_kind (resting_price o) o)
        o.id
        o.account
        o.side
        (stored_price o)
        o.remaining
        (display_size o)
      ≡ some (stored_order o)
unfolding resting_price display_size stored_order
make_stored-stored_order o = make_stored_kind o o.kind refl

read_order-bytes :
    (o : Order)
    → FitsCommand (Command.submit o)
    → read_order (order_bytes (stored_kind (resting_price o) o) o) ≡ ok (some (stored_order o), [])
unfolding read_order
read_order-bytes o h =
    rw (get-put_u8 (stored_kind (resting_price o) o) _ (stored_kind-lt (resting_price o) o)) (
      rw (get-put_u64 o.id _ h.0, get-put_u32 o.account _ h.1)
        (rw (get-put_u8 (side_code o.side) _ (side_byte o.side), get-put_i64 (stored_price o) _ h.2)
          (rw (get-put_u64 o.remaining _ h.3, get-put_u64 (display_size o) _ h.4)
            (rw (cast_side-code o.side, make_stored-stored_order o) refl))))

read_payload-bytes :
    (sequence : ℕ) (c : Command)
    → sequence < 2 ^ 64
    → FitsCommand c
    → read_payload (emit sequence 0 8 ++ command_bytes c)
      ≡ ok (some (record { sequence = sequence; command = stored_command c }))
unfolding read_payload read_command require_fully_consumed
read_payload-bytes sequence (Command.submit o) w h =
    rw (get-put_u64 sequence _ w, get-put_u8 1 _ (omega arith)) (rw (read_order-bytes o h) refl)
read_payload-bytes sequence (Command.cancel id) w h =
    rw (get-put_u64 sequence _ w, get-put_u8 2 _ (omega arith)) (rw (get-put_u64 id _ h) refl)
read_payload-bytes sequence (Command.modify id quantity none) w h =
    rw (get-put_u64 sequence _ w, get-put_u8 3 _ (omega arith))
      (rw (get-put_u64 id _ h.0, get-put_u64 quantity _ h.1, get-put_u8 0 _ (omega arith))
        (rw (get-put_i64 (pos 0) _ h.2) refl))
read_payload-bytes sequence (Command.modify id quantity (some p)) w h =
    rw (get-put_u64 sequence _ w, get-put_u8 3 _ (omega arith))
      (rw (get-put_u64 id _ h.0, get-put_u64 quantity _ h.1, get-put_u8 1 _ (omega arith))
        (rw (get-put_i64 p _ h.2) refl))

pub read_payload-encode :
    (sequence : ℕ) (c : Command)
    → sequence < 2 ^ 64
    → FitsCommand c
    → read_payload (encode_payload sequence c)
      ≡ ok (some (record { sequence = sequence; command = stored_command c }))
read_payload-encode sequence c w h =
    ap read_payload (payload_bytes sequence c).0 ∙ read_payload-bytes sequence c w h

pub payload_size :
    (sequence : ℕ) (c : Command)
    → (0 < length (encode_payload sequence c)) × (length (encode_payload sequence c) < 64)
payload_size sequence c = ((payload_bytes sequence c).2, (payload_bytes sequence c).1)
