-- ===== src/Protocol.antt =====
-- net/protocol.hpp and net/protocol.cpp: the messages and their frames. A message type is the byte
-- that a frame carries, which need not be one of the enumerators.
pub mod RoundTrip
use multithreaded_exchange_s.Prelude.{
  ℕ, zero, suc, ◌+◌, ◌-◌, ◌*◌, ◌/◌, ◌%◌, ◌^◌, ◌≤◌, ◌<◌, min, ◌≡◌, refl, sym, ap, ap₂, subst, ◌∙◌,
  ◌≢◌, ◌↔◌, ◌⊎◌, inl, inr, Bool, true, false, not, ◌&&◌, ◌||◌, Option, none, some, List, [], ◌∷◌,
  ◌++◌, map, append-nil, append_assoc, arith, ltb, leb, ◌==◌, if◌then◌else◌, ltb→lt, lt→ltb, ==_iff,
  Bool-cases, Option-cases, length, take, drop, length-append, take-append, drop-append, All,
  All-append, All-of, All-map, precondition,
}
use multithreaded_exchange_s.Prelude.Int.{ℤ, pos}
use multithreaded_exchange_s.Types.{Side, side_code}
use multithreaded_exchange_s.Wire.{
  Result, ok, err, ◌>>=◌, ProtocolError, put_u8, put_u32, put_u64, put_i64, emit, get_u8, get_u32,
  get_u64, get_i64, require_fully_consumed,
}

abbrev pub protocol_version : ℕ
protocol_version = 1

-- The enumerators of MessageType.
abbrev pub type_new_order : ℕ
type_new_order = 1

abbrev pub type_cancel : ℕ
type_cancel = 2

abbrev pub type_modify : ℕ
type_modify = 3

abbrev pub type_accepted : ℕ
type_accepted = 16

abbrev pub type_rejected : ℕ
type_rejected = 17

abbrev pub type_fill : ℕ
type_fill = 18

pub data OrderKind : Type 0 where
  limit market iceberg : OrderKind

abbrev pub kind_code : OrderKind → ℕ
kind_code OrderKind.limit = 0
kind_code OrderKind.market = 1
kind_code OrderKind.iceberg = 2

pub data RejectReason : Type 0 where
  unknown invalid_order unknown_order self_match overloaded : RejectReason

abbrev pub reason_code : RejectReason → ℕ
reason_code RejectReason.unknown = 0
reason_code RejectReason.invalid_order = 1
reason_code RejectReason.unknown_order = 2
reason_code RejectReason.self_match = 3
reason_code RejectReason.overloaded = 4

-- NewOrderMessage, CancelMessage and ModifyMessage.
pub data ClientMessage : Type 0 where
  new_order : ℕ → ℕ → Side → OrderKind → ℤ → ℕ → ℕ → ClientMessage
  cancel_order : ℕ → ClientMessage
  modify_order : ℕ → ℕ → Option ℤ → ClientMessage

-- AcceptedMessage, RejectedMessage and FillMessage.
pub data ServerMessage : Type 0 where
  accepted : ℕ → ℕ → ℕ → ServerMessage
  rejected : ℕ → RejectReason → ServerMessage
  filled : ℕ → ℕ → ℤ → ℕ → Side → ServerMessage

unfoldable pub begin_frame : ℕ → List ℕ
unfolding put_u32 put_u8
begin_frame type = put_u8 type (put_u8 protocol_version (put_u32 0 []))

-- Overwrites the length, which counts all that follows it.
unfoldable pub finish_frame : List ℕ → List ℕ
finish_frame frame = emit (length frame - 4) 0 4 ++ drop 4 frame

abbrev pub has_price : Option ℤ → ℕ
has_price none = 0
has_price (some p) = 1

abbrev pub price_or_zero : Option ℤ → ℤ
price_or_zero none = pos 0
price_or_zero (some p) = p

unfoldable pub encode_client : ClientMessage → List ℕ
unfolding begin_frame finish_frame put_u8 put_u32 put_u64 put_i64
encode_client (ClientMessage.new_order id account side kind price qty display) = finish_frame (
    put_u64 display (
      put_u64 qty (
        put_i64 price (
          put_u8 (kind_code kind) (
            put_u8 (side_code side) (put_u32 account (put_u64 id (begin_frame type_new_order))))))))
encode_client (ClientMessage.cancel_order id) = finish_frame (put_u64 id (begin_frame type_cancel))
encode_client (ClientMessage.modify_order id qty price) = finish_frame (
    put_i64 (price_or_zero price)
      (put_u8 (has_price price) (put_u64 qty (put_u64 id (begin_frame type_modify)))))

unfoldable pub encode_server : ServerMessage → List ℕ
unfolding begin_frame finish_frame put_u8 put_u64 put_i64
encode_server (ServerMessage.accepted id traded resting) =
    finish_frame (put_u64 resting (put_u64 traded (put_u64 id (begin_frame type_accepted))))
encode_server (ServerMessage.rejected id reason) =
    finish_frame (put_u8 (reason_code reason) (put_u64 id (begin_frame type_rejected)))
encode_server (ServerMessage.filled id other price qty side) = finish_frame (
    put_u8 (side_code side)
      (put_u64 qty (put_i64 price (put_u64 other (put_u64 id (begin_frame type_fill))))))

unfoldable pub decode_side : ℕ → Result Side
decode_side raw =
    if ltb 1 raw then err ProtocolError.bad_side else ok (if raw == 0 then Side.buy else Side.sell)

unfoldable pub decode_kind : ℕ → Result OrderKind
decode_kind raw =
    if ltb 2 raw
    then err ProtocolError.bad_kind
    else ok (
        if raw == 0
        then OrderKind.limit
        else if raw == 1
        then OrderKind.market
        else OrderKind.iceberg)

unfoldable pub decode_reason : ℕ → Result RejectReason
decode_reason raw =
    if ltb 4 raw
    then err ProtocolError.bad_reason
    else ok (
        if raw == 0
        then RejectReason.unknown
        else if raw == 1
        then RejectReason.invalid_order
        else if raw == 2
        then RejectReason.unknown_order
        else if raw == 3
        then RejectReason.self_match
        else RejectReason.overloaded)

unfoldable pub decode_new_order : List ℕ → Result ClientMessage
decode_new_order payload = do
  id ← get_u64 payload
  account ← get_u32 id.1
  raw_side ← get_u8 account.1
  side ← decode_side raw_side.0
  raw_kind ← get_u8 raw_side.1
  kind ← decode_kind raw_kind.0
  price ← get_i64 raw_kind.1
  qty ← get_u64 price.1
  display ← get_u64 qty.1
  require_fully_consumed display.1 >>= λ _.
      ok (ClientMessage.new_order id.0 account.0 side kind price.0 qty.0 display.0)

unfoldable pub decode_cancel : List ℕ → Result ClientMessage
decode_cancel payload = do
  id ← get_u64 payload
  require_fully_consumed id.1 >>= λ _. ok (ClientMessage.cancel_order id.0)

unfoldable pub decode_modify : List ℕ → Result ClientMessage
decode_modify payload = do
  id ← get_u64 payload
  qty ← get_u64 id.1
  present ← get_u8 qty.1
  price ← get_i64 present.1
  require_fully_consumed price.1 >>= λ _.
      ok (ClientMessage.modify_order id.0 qty.0 (if present.0 == 0 then none else some price.0))

abbrev pub is_server_type : ℕ → Bool
is_server_type type = type == type_accepted || type == type_rejected || type == type_fill

abbrev pub is_client_type : ℕ → Bool
is_client_type type = type == type_new_order || type == type_cancel || type == type_modify

unfoldable pub decode_client_message : ℕ → List ℕ → Result ClientMessage
decode_client_message type payload =
    if type == type_new_order
    then decode_new_order payload
    else if type == type_cancel
    then decode_cancel payload
    else if type == type_modify
    then decode_modify payload
    else if is_server_type type
    then err ProtocolError.wrong_direction
    else err ProtocolError.unknown_type

unfoldable pub decode_accepted : List ℕ → Result ServerMessage
decode_accepted payload = do
  id ← get_u64 payload
  traded ← get_u64 id.1
  resting ← get_u64 traded.1
  require_fully_consumed resting.1 >>= λ _. ok (ServerMessage.accepted id.0 traded.0 resting.0)

unfoldable pub decode_rejected : List ℕ → Result ServerMessage
decode_rejected payload = do
  id ← get_u64 payload
  raw ← get_u8 id.1
  reason ← decode_reason raw.0
  require_fully_consumed raw.1 >>= λ _. ok (ServerMessage.rejected id.0 reason)

unfoldable pub decode_fill : List ℕ → Result ServerMessage
decode_fill payload = do
  id ← get_u64 payload
  other ← get_u64 id.1
  price ← get_i64 other.1
  qty ← get_u64 price.1
  raw ← get_u8 qty.1
  side ← decode_side raw.0
  require_fully_consumed raw.1 >>= λ _. ok (ServerMessage.filled id.0 other.0 price.0 qty.0 side)

unfoldable pub decode_server_message : ℕ → List ℕ → Result ServerMessage
decode_server_message type payload =
    if type == type_accepted
    then decode_accepted payload
    else if type == type_rejected
    then decode_rejected payload
    else if type == type_fill
    then decode_fill payload
    else if is_client_type type
    then err ProtocolError.wrong_direction
    else err ProtocolError.unknown_type
