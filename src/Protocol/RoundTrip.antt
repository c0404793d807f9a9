-- ===== src/Protocol/RoundTrip.antt =====
-- net/protocol.cpp: the encoders against the decoders.
use multithreaded_exchange_s.Protocol.{
  decode_fill, decode_rejected, decode_accepted, protocol_version, ClientMessage, ServerMessage,
  encode_client, encode_server, decode_client_message, decode_server_message, kind_code,
  reason_code, has_price, price_or_zero, decode_side, decode_kind, decode_reason, decode_new_order,
  decode_cancel, decode_modify, OrderKind, RejectReason,
}
use multithreaded_exchange_s.Prelude.Int.{pos}
use multithreaded_exchange_s.Prelude.{
  ℕ, ◌+◌, ◌-◌, ◌%◌, ◌^◌, ◌<◌, ◌≡◌, refl, none, some, List, [], ◌∷◌, ◌++◌, arith, length, take, drop,
}
use multithreaded_exchange_s.Wire.{ok, emit, to_unsigned, require_fully_consumed}
use multithreaded_exchange_s.Wire.RoundTrip.{
  get-put_u8, get-put_u32, get-put_u64, get-put_i64, FitsI64,
}
use multithreaded_exchange_s.Types.{side_code, Side}

-- The bytes behind the header.
abbrev pub client_payload : ClientMessage → List ℕ
client_payload (ClientMessage.new_order id account side kind price qty display) =
    emit id 0 8
    ++ (emit account 0 4
        ++ (side_code side % 256
            ∷ (kind_code kind % 256
                ∷ (emit (to_unsigned price) 0 8 ++ (emit qty 0 8 ++ (emit display 0 8 ++ []))))))
client_payload (ClientMessage.cancel_order id) = emit id 0 8 ++ []
client_payload (ClientMessage.modify_order id qty price) =
    emit id 0 8
    ++ (emit qty 0 8
        ++ (has_price price % 256 ∷ (emit (to_unsigned (price_or_zero price)) 0 8 ++ [])))

abbrev pub client_type : ClientMessage → ℕ
client_type (ClientMessage.new_order id account side kind price qty display) = 1
client_type (ClientMessage.cancel_order id) = 2
client_type (ClientMessage.modify_order id qty price) = 3

-- The fields fit their widths.
abbrev pub FitsClient : ClientMessage → Type 0
FitsClient (ClientMessage.new_order id account side kind price qty display) =
    (id < 2 ^ 64) × (account < 2 ^ 32) × FitsI64 price × (qty < 2 ^ 64) × (display < 2 ^ 64)
FitsClient (ClientMessage.cancel_order id) = id < 2 ^ 64
FitsClient (ClientMessage.modify_order id qty price) =
    (id < 2 ^ 64) × (qty < 2 ^ 64) × FitsI64 (price_or_zero price)

pub encode_client-frame :
    (m : ClientMessage)
    → encode_client m
      ≡ emit (length (client_payload m) + 2) 0 4 ++ (1 ∷ client_type m ∷ client_payload m)
unfolding encode_client emit
encode_client-frame (ClientMessage.new_order id account side kind price qty display) = refl
encode_client-frame (ClientMessage.cancel_order id) = refl
encode_client-frame (ClientMessage.modify_order id qty price) = refl

decode_side-code : (s : Side) → decode_side (side_code s) ≡ ok s
unfolding decode_side
decode_side-code Side.buy = refl
decode_side-code Side.sell = refl

decode_kind-code : (k : OrderKind) → decode_kind (kind_code k) ≡ ok k
unfolding decode_kind
decode_kind-code OrderKind.limit = refl
decode_kind-code OrderKind.market = refl
decode_kind-code OrderKind.iceberg = refl

side_code-lt : (s : Side) → side_code s < 256
side_code-lt Side.buy = omega arith
side_code-lt Side.sell = omega arith

kind_code-lt : (k : OrderKind) → kind_code k < 256
kind_code-lt OrderKind.limit = omega arith
kind_code-lt OrderKind.market = omega arith
kind_code-lt OrderKind.iceberg = omega arith

pub decode-payload :
    (m : ClientMessage)
    → FitsClient m
    → decode_client_message (client_type m) (client_payload m) ≡ ok m
unfolding decode_client_message decode_new_order decode_cancel decode_modify require_fully_consumed
decode-payload (ClientMessage.new_order id account side kind price qty display) h =
    rw
      (
        get-put_u64 id _ h.0,
        get-put_u32 account _ h.1,
        get-put_u8 (side_code side) _ (side_code-lt side),
      )
      (rw
        (
          decode_side-code side,
          get-put_u8 (kind_code kind) _ (kind_code-lt kind),
          decode_kind-code kind,
        )
        (rw (get-put_i64 price _ h.2, get-put_u64 qty _ h.3, get-put_u64 display _ h.4)))
decode-payload (ClientMessage.cancel_order id) h = rw (get-put_u64 id _ h)
decode-payload (ClientMessage.modify_order id qty none) h = rw (
  get-put_u64 id _ h.0,
  get-put_u64 qty _ h.1,
  get-put_u8 0 _ (omega arith),
  get-put_i64 (pos 0) _ h.2,
)
decode-payload (ClientMessage.modify_order id qty (some p)) h =
    rw (
      get-put_u64 id _ h.0,
      get-put_u64 qty _ h.1,
      get-put_u8 1 _ (omega arith),
      get-put_i64 p _ h.2,
    )

-- A client's message, encoded as a whole frame with fields that fit their widths, is decoded from the
-- frame's bytes behind the header to the same message; the header is the number of the bytes behind
-- the length field, the protocol's version and the message's type.
pub decode-encode_client :
    (m : ClientMessage)
    → FitsClient m
    → (decode_client_message (client_type m) (drop 6 (encode_client m)) ≡ ok m)
      × (take 6 (encode_client m)
          ≡ emit (length (encode_client m) - 4) 0 4 ++ (protocol_version ∷ client_type m ∷ []))
unfolding encode_client emit
decode-encode_client (ClientMessage.new_order id account side kind price qty display) h =
    (decode-payload (ClientMessage.new_order id account side kind price qty display) h, refl)
decode-encode_client (ClientMessage.cancel_order id) h =
    (decode-payload (ClientMessage.cancel_order id) h, refl)
decode-encode_client (ClientMessage.modify_order id qty price) h =
    (decode-payload (ClientMessage.modify_order id qty price) h, refl)

-- The bytes behind the header of a server's message.
server_payload : ServerMessage → List ℕ
server_payload (ServerMessage.accepted id traded resting) =
    emit id 0 8 ++ (emit traded 0 8 ++ (emit resting 0 8 ++ []))
server_payload (ServerMessage.rejected id reason) = emit id 0 8 ++ (reason_code reason % 256 ∷ [])
server_payload (ServerMessage.filled id other price qty side) =
    emit id 0 8
    ++ (emit other 0 8
        ++ (emit (to_unsigned price) 0 8 ++ (emit qty 0 8 ++ (side_code side % 256 ∷ []))))

abbrev pub server_type : ServerMessage → ℕ
server_type (ServerMessage.accepted id traded resting) = 16
server_type (ServerMessage.rejected id reason) = 17
server_type (ServerMessage.filled id other price qty side) = 18

-- The fields fit their widths.
abbrev pub FitsServer : ServerMessage → Type 0
FitsServer (ServerMessage.accepted id traded resting) =
    (id < 2 ^ 64) × (traded < 2 ^ 64) × (resting < 2 ^ 64)
FitsServer (ServerMessage.rejected id reason) = id < 2 ^ 64
FitsServer (ServerMessage.filled id other price qty side) =
    (id < 2 ^ 64) × (other < 2 ^ 64) × FitsI64 price × (qty < 2 ^ 64)

decode_reason-code :
    (r : RejectReason) → (decode_reason (reason_code r) ≡ ok r) × (reason_code r < 256)
unfolding decode_reason
decode_reason-code RejectReason.unknown = (refl, omega arith)
decode_reason-code RejectReason.invalid_order = (refl, omega arith)
decode_reason-code RejectReason.unknown_order = (refl, omega arith)
decode_reason-code RejectReason.self_match = (refl, omega arith)
decode_reason-code RejectReason.overloaded = (refl, omega arith)

decode-server_payload :
    (m : ServerMessage)
    → FitsServer m
    → decode_server_message (server_type m) (server_payload m) ≡ ok m
unfolding decode_server_message decode_accepted decode_rejected decode_fill require_fully_consumed
    server_payload
decode-server_payload (ServerMessage.accepted id traded resting) h =
    rw (get-put_u64 id _ h.0, get-put_u64 traded _ h.1, get-put_u64 resting _ h.2)
decode-server_payload (ServerMessage.rejected id reason) h =
    let back = decode_reason-code reason in
    rw (get-put_u64 id _ h, get-put_u8 (reason_code reason) _ back.1) (rw back.0)
decode-server_payload (ServerMessage.filled id other price qty side) h =
    rw
      (
        get-put_u64 id _ h.0,
        get-put_u64 other _ h.1,
        get-put_i64 price _ h.2,
        get-put_u64 qty _ h.3,
      )
      (rw (get-put_u8 (side_code side) _ (side_code-lt side)) (rw (decode_side-code side)))

-- A server's message, encoded as a whole frame with fields that fit their widths, is decoded from
-- the frame's bytes behind the header to the same message; the header is the number of the bytes
-- behind the length field, the protocol's version and the message's type.
pub decode-encode_server :
    (m : ServerMessage)
    → FitsServer m
    → (decode_server_message (server_type m) (drop 6 (encode_server m)) ≡ ok m)
      × (take 6 (encode_server m)
          ≡ emit (length (encode_server m) - 4) 0 4 ++ (protocol_version ∷ server_type m ∷ []))
unfolding encode_server emit server_payload
decode-encode_server (ServerMessage.accepted id traded resting) h =
    (decode-server_payload (ServerMessage.accepted id traded resting) h, refl)
decode-encode_server (ServerMessage.rejected id reason) h =
    (decode-server_payload (ServerMessage.rejected id reason) h, refl)
decode-encode_server (ServerMessage.filled id other price qty side) h =
    (decode-server_payload (ServerMessage.filled id other price qty side) h, refl)
