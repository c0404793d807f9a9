-- ===== src/WalRecord.antt =====
-- store/wal_record.hpp and store/wal_record.cpp: the records of the write-ahead log.
pub mod RoundTrip
pub mod Torn
pub mod Prefix
use multithreaded_exchange_s.Order.{
  make_iceberg, make_market, make_limit, Order, resting_price, display_size,
}
use multithreaded_exchange_s.Protocol.{has_price, price_or_zero}
use multithreaded_exchange_s.Types.{side_code, Side}
use multithreaded_exchange_s.Crc32.{crc32}
use multithreaded_exchange_s.Prelude.Int.{ℤ}
use multithreaded_exchange_s.Command.{Command}
use multithreaded_exchange_s.Wire.{
  Result, ok, err, ◌>>=◌, get_u8, get_u32, get_u64, get_i64, gather, put_u8, put_u32, put_u64,
  put_i64, require_fully_consumed,
}
use multithreaded_exchange_s.Prelude.{
  ℕ, zero, suc, ◌+◌, ◌-◌, ◌*◌, ◌/◌, ◌%◌, ◌^◌, ◌≤◌, ◌<◌, min, ◌≡◌, refl, sym, ap, ap₂, subst, ◌∙◌,
  ◌≢◌, ◌↔◌, ◌⊎◌, inl, inr, Bool, true, false, not, ◌&&◌, ◌||◌, Option, none, some, List, [], ◌∷◌,
  ◌++◌, map, append-nil, append_assoc, arith, ltb, leb, ◌==◌, if◌then◌else◌, ltb→lt, lt→ltb, ==_iff,
  Bool-cases, Option-cases, length, take, drop, length-append, take-append, drop-append, All,
  All-append, All-of, All-map,
}

-- The enumerators of RecordType and of StoredOrderKind.
abbrev pub type_submit : ℕ
type_submit = 1

abbrev pub type_cancel : ℕ
type_cancel = 2

abbrev pub type_modify : ℕ
type_modify = 3

abbrev pub stored_limit : ℕ
stored_limit = 0

abbrev pub stored_market : ℕ
stored_market = 1

abbrev pub stored_iceberg : ℕ
stored_iceberg = 2

abbrev pub record_header_size : ℕ
record_header_size = 8

abbrev pub max_record_payload : ℕ
max_record_payload = 4096

pub record WalRecord : Type 0 where
  pub sequence : ℕ
  pub command : Command

abbrev pub stored_kind : Option ℤ → Order → ℕ
stored_kind none o = stored_market
stored_kind (some p) o = if ltb (display_size o) o.remaining then stored_iceberg else stored_limit

unfoldable pub write_order : Order → List ℕ → List ℕ
unfolding put_u8 put_u32 put_u64 put_i64 resting_price display_size
write_order o out = put_u64 (display_size o) (
    put_u64 o.remaining (
      put_i64 (price_or_zero (resting_price o)) (
        put_u8 (side_code o.side)
          (put_u32 o.account (put_u64 o.id (put_u8 (stored_kind (resting_price o) o) out))))))

-- Both casts take any byte: a kind that is no enumerator makes no order, and a side that is none is
-- not the buy side.
abbrev pub cast_side : ℕ → Side
cast_side raw = if raw == 0 then Side.buy else Side.sell

unfoldable pub make_stored : ℕ → ℕ → ℕ → Side → ℤ → ℕ → ℕ → Option Order
unfolding make_limit make_market make_iceberg
make_stored kind id account side price quantity display =
    if kind == stored_limit
    then some (make_limit id side account quantity price)
    else if kind == stored_market
    then some (make_market id side account quantity)
    else if kind == stored_iceberg
    then some (make_iceberg id side account quantity price display)
    else none

unfoldable pub read_order : List ℕ → Result (Option Order × List ℕ)
read_order input = do
  kind ← get_u8 input
  id ← get_u64 kind.1
  account ← get_u32 id.1
  side ← get_u8 account.1
  price ← get_i64 side.1
  quantity ← get_u64 price.1
  display ← get_u64 quantity.1
  ok (make_stored kind.0 id.0 account.0 (cast_side side.0) price.0 quantity.0 display.0, display.1)

unfoldable pub write_command : Command → List ℕ → List ℕ
unfolding write_order put_u8 put_u64 put_i64
write_command (Command.submit o) out = write_order o (put_u8 type_submit out)
write_command (Command.cancel id) out = put_u64 id (put_u8 type_cancel out)
write_command (Command.modify id quantity price) out =
    put_i64 (price_or_zero price)
      (put_u8 (has_price price) (put_u64 quantity (put_u64 id (put_u8 type_modify out))))

unfoldable pub encode_payload : ℕ → Command → List ℕ
unfolding write_command put_u64
encode_payload sequence c = write_command c (put_u64 sequence [])

unfoldable pub encode_record : ℕ → Command → List ℕ
unfolding put_u32
encode_record sequence c =
    let payload = encode_payload sequence c in
    put_u32 (crc32 payload) (put_u32 (length payload) []) ++ payload

-- ReadResult: a record and the number of bytes that it took, or why there is none.
pub data ReadResult : Type 0 where
  read_ok : WalRecord → ℕ → ReadResult
  incomplete corrupt : ReadResult

unfoldable pub read_command : ℕ → List ℕ → Result (Option Command × List ℕ)
read_command type input =
    if type == type_submit
    then (read_order input >>= λ o.
        ok (elim o.0 [ none ↦ none | some order ↦ some (Command.submit order) ], o.1))
    else if type == type_cancel
    then (get_u64 input >>= λ id. ok (some (Command.cancel id.0), id.1))
    else if type == type_modify
    then (do
      id ← get_u64 input
      quantity ← get_u64 id.1
      present ← get_u8 quantity.1
      price ← get_i64 present.1
      ok (
        some (Command.modify id.0 quantity.0 (if present.0 == 0 then none else some price.0)),
        price.1,
      ))
    else ok (none, input)

-- The part of decodeRecord that may throw: sequence, type and fields, to the end of the payload. A
-- null order and an unknown type give none.
unfoldable pub read_payload : List ℕ → Result (Option WalRecord)
read_payload payload = do
  sequence ← get_u64 payload
  type ← get_u8 sequence.1
  out ← read_command type.0 type.1
  elim out.0 [
    | none ↦ ok none
    | some c ↦ require_fully_consumed out.1 >>= λ _.
        ok (some (record { sequence = sequence.0; command = c }))
  ]

abbrev pub read_as : ℕ → Result (Option WalRecord) → ReadResult
read_as n (ok (some r)) = ReadResult.read_ok r n
read_as n (ok none) = ReadResult.corrupt
read_as n (err e) = ReadResult.corrupt

unfoldable pub decode_record : List ℕ → ReadResult
unfolding gather
decode_record bytes =
    let size = gather 0 4 bytes in
    let expected = gather 0 4 (drop 4 bytes) in
    let payload = take size (drop record_header_size bytes) in
    if ltb (length bytes) record_header_size
    then ReadResult.incomplete
    else if size == 0 || ltb max_record_payload size
    then ReadResult.corrupt
    else if ltb (length bytes) (record_header_size + size)
    then ReadResult.incomplete
    else if not (crc32 payload == expected)
    then ReadResult.corrupt
    else read_as (record_header_size + size) (read_payload payload)
