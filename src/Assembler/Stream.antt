-- ===== src/Assembler/Stream.antt =====
-- net/frame_assembler.cpp: a client's messages on a stream, whole and in part.
use multithreaded_exchange_s.Protocol.RoundTrip.{
  decode-payload, encode_client-frame, client_payload, FitsClient, client_type,
}
use multithreaded_exchange_s.Assembler.Frames.{
  next-frame_of, compact-unread, IsReadable, unread, frame_of,
}
use multithreaded_exchange_s.Protocol.{decode_client_message, encode_client, ClientMessage}
use multithreaded_exchange_s.Assembler.{Frame, compact, buffered, FrameAssembler, next, read_frame}
use multithreaded_exchange_s.Wire.RoundTrip.{gather-emit4}
use multithreaded_exchange_s.Wire.{gather, ok, get_u32, emit}
use multithreaded_exchange_s.Prelude.{
  ℕ, ◌+◌, ◌^◌, ◌≤◌, ◌<◌, ◌≡◌, refl, sym, ap, ◌∙◌, inl, inr, true, false, none, some, List, [], ◌∷◌,
  ◌++◌, arith, ltb, Bool-cases, length, length-append,
}

-- Four bytes are the same number whatever follows them.
pub gather-append : (xs ys : List ℕ) → 4 ≤ length xs → gather 0 4 xs ≡ gather 0 4 (xs ++ ys)
unfolding gather
gather-append [] ys h = absurd (omega (arith, h))
gather-append (a ∷ []) ys h = absurd (omega (arith, h))
gather-append (a ∷ b ∷ []) ys h = absurd (omega (arith, h))
gather-append (a ∷ b ∷ c ∷ []) ys h = absurd (omega (arith, h))
gather-append (a ∷ b ∷ c ∷ d ∷ xs) ys h = refl

header_of :
    (view more : List ℕ) (type : ℕ) (payload : List ℕ)
    → 4 ≤ length view
    → length payload + 2 < 2 ^ 32
    → view ++ more ≡ frame_of type payload
    → gather 0 4 view ≡ length payload + 2
unfolding frame_of
header_of view more type payload h w e =
    gather-append view more h
    ∙ (ap (gather 0 4) e ∙ gather-emit4 (length payload + 2) (1 ∷ type ∷ payload) w)

length-frame_of :
    (type : ℕ) (payload : List ℕ) → length (frame_of type payload) ≡ 6 + length payload
unfolding frame_of emit
length-frame_of type payload = omega arith

read_partial :
    (a : FrameAssembler) (view more : List ℕ) (type : ℕ) (payload : List ℕ)
    → 0 < length more
    → length payload + 2 < 2 ^ 32
    → length payload + 2 ≤ a.max_body
    → view ++ more ≡ frame_of type payload
    → buffered a ≡ length view
    → read_frame a view ≡ ok (none, a)
unfolding read_frame get_u32
read_partial a view more type payload some_more w m e size =
    let total : length view + length more ≡ 6 + length payload =
      omega (arith, length-append view more, ap length e, length-frame_of type payload) in
    elim (Bool-cases (ltb (buffered a) 6)) [
      | inl s ↦ rw s refl
      | inr s ↦
          let four : 4 ≤ length view = ground arith in
          let enough : ltb (length view) 4 ≡ false = ground arith in
          let short : ltb a.max_body (length payload + 2) ≡ false = ground arith in
          let long : ltb (length payload + 2) 2 ≡ false = ground arith in
          let wait : ltb (buffered a) (4 + (length payload + 2)) ≡ true = ground arith in
          rw (s, enough, header_of view more type payload four w e) (rw (short, long, wait) refl)
    ]

-- Where the bytes not read are a proper beginning of a frame within the limit, `next` gives nothing,
-- throws nothing and loses no byte.
pub next-partial :
    (a : FrameAssembler) (more : List ℕ) (type : ℕ) (payload : List ℕ)
    → IsReadable a
    → 0 < length more
    → length payload + 2 < 2 ^ 32
    → length payload + 2 ≤ a.max_body
    → unread a ++ more ≡ frame_of type payload
    → (b : FrameAssembler) × (next a ≡ ok (none, b)) × (unread b ≡ unread a) × IsReadable b
unfolding next unread
next-partial a more type payload h some_more w m e =
    let c = compact-unread a h in
    (
      compact a,
      read_partial (compact a) (unread (compact a)) more type payload some_more w
          (omega (arith, m, c.2)) (ap (λ v. v ++ more) c.0 ∙ e) (c.3 ∙ sym (ap length c.0)),
      c.0,
      c.1,
    )

client_frame :
    (m : ClientMessage)
    → (encode_client m ≡ frame_of (client_type m) (client_payload m))
      × (length (client_payload m) < 40)
unfolding frame_of emit
client_frame (ClientMessage.new_order id account side kind price qty display) = (
  encode_client-frame (ClientMessage.new_order id account side kind price qty display),
  omega arith,
)
client_frame (ClientMessage.cancel_order id) =
    (encode_client-frame (ClientMessage.cancel_order id), omega arith)
client_frame (ClientMessage.modify_order id qty price) =
    (encode_client-frame (ClientMessage.modify_order id qty price), omega arith)

-- Where the bytes not read begin with a client's encoded message, whose fields fit their widths, and
-- the limit allows 41 bytes, `next` gives a frame that decodes to the message, and leaves the bytes
-- behind it.
pub next-encode_client :
    (a : FrameAssembler) (m : ClientMessage) (rest : List ℕ)
    → IsReadable a
    → FitsClient m
    → 41 ≤ a.max_body
    → unread a ≡ encode_client m ++ rest
    → (f : Frame) × (b : FrameAssembler) × (next a ≡ ok (some f, b))
      × (decode_client_message f.type f.payload ≡ ok m)
      × (unread b ≡ rest)
      × IsReadable b
next-encode_client a m rest h fits limit e =
    let c = client_frame m in
    let n =
      next-frame_of a (client_type m) (client_payload m) rest h (omega (arith, c.1))
        (omega (arith, c.1, limit)) (e ∙ ap (λ v. v ++ rest) c.0) in
    (
      record { version = 1; type = client_type m; payload = client_payload m },
      n.0,
      n.1,
      decode-payload m fits,
      n.2,
      n.3,
    )
