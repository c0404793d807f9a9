-- ===== src/Assembler/Progress.antt =====
-- FrameAssembler::next of net/frame_assembler.cpp: what a frame takes from the buffer.
use multithreaded_exchange_s.Protocol.{protocol_version}
use multithreaded_exchange_s.Wire.{get_u8, get_u32, err, ok, ProtocolError, Result, ◌>>=◌}
use multithreaded_exchange_s.Prelude.{
  length-drop, ℕ, ◌+◌, ◌-◌, ◌*◌, ◌≤◌, ◌<◌, ◌≡◌, refl, ap, inl, inr, Bool, true, false, not, Option,
  none, some, List, arith, ltb, ◌==◌, if◌then◌else◌, Bool-cases, length, drop,
}
use multithreaded_exchange_s.Assembler.{Frame, buffered, FrameAssembler, compact, next, read_frame}

-- A result of a chain, taken apart.
ok_of {ℓ κ} :
    {A : Type ℓ} {B : Type κ} (m : Result A) (f : A → Result B) (b : B)
    → (m >>= f) ≡ ok b
    → (a : A) × (m ≡ ok a) × (f a ≡ ok b)
ok_of (err e) f b h = absurd (cc)
ok_of (ok a) f b h = (a, refl, h)

-- A test before an error or an absence that is not the result.
passed_err {ℓ} :
    {A : Type ℓ} (t : Bool) (e : ProtocolError) {r : Result A} {a : A}
    → (if t then err e else r) ≡ ok a
    → (t ≡ false) × (r ≡ ok a)
passed_err true e h = absurd (cc)
passed_err false e h = (refl, h)

passed_none :
    (t : Bool) (x : FrameAssembler) {r : Result (Option Frame × FrameAssembler)} {f : Frame}
    {b : FrameAssembler}
    → (if t then ok (none, x) else r) ≡ ok (some f, b)
    → (t ≡ false) × (r ≡ ok (some f, b))
passed_none true x h = absurd (cc)
passed_none false x h = (refl, h)

read_frame-buffered :
    (a : FrameAssembler) (view : List ℕ) (f : Frame) (b : FrameAssembler)
    → read_frame a view ≡ ok (some f, b)
    → buffered b < buffered a
unfolding read_frame buffered
read_frame-buffered a view f b h =
    let long = passed_none (ltb (length a.buffer - a.read_pos) 6) a h in
    let header = ok_of (get_u32 view) _ _ long.1 in
    let small = passed_err (ltb a.max_body header.0.0) ProtocolError.too_long header.2 in
    let large = passed_err (ltb header.0.0 2) ProtocolError.too_short small.1 in
    let whole = passed_none (ltb (length a.buffer - a.read_pos) (4 + header.0.0)) a large.1 in
    let version = ok_of (get_u8 header.0.1) _ _ whole.1 in
    let known =
      passed_err (not (version.0.0 == protocol_version)) ProtocolError.bad_version version.2 in
    let type = ok_of (get_u8 version.0.1) _ _ known.1 in
    let same : record a { read_pos = a.read_pos + (4 + header.0.0) } ≡ b = cc (type.2) in
    let room : 4 + header.0.0 ≤ length a.buffer - a.read_pos = ground (arith, whole.0) in
    omega (arith, room, ap (λ x. x.read_pos) same, ap (λ x. length x.buffer) same)

compact-buffered : (a : FrameAssembler) → buffered (compact a) ≡ buffered a
unfolding compact buffered
compact-buffered a = elim (Bool-cases (a.read_pos == 0)) [
  | inl z ↦ rw z refl
  | inr z ↦ elim (Bool-cases (ltb (a.read_pos * 2) (length a.buffer))) [
    | inl s ↦ rw (z, s) refl
    | inr s ↦ rw (z, s) (omega (arith, length-drop a.read_pos a.buffer))
  ]
]

-- A frame takes bytes that were buffered.
pub next-buffered :
    (a : FrameAssembler) (f : Frame) (b : FrameAssembler)
    → next a ≡ ok (some f, b)
    → buffered b < buffered a
unfolding next
next-buffered a f b h = omega (
  arith,
  compact-buffered a,
  read_frame-buffered (compact a) (drop (compact a).read_pos (compact a).buffer) f b h,
)
