-- ===== src/Assembler/Frames.antt =====
-- net/frame_assembler.cpp: the bytes that are not read, and a whole frame among them.
use multithreaded_exchange_s.Prelude.{
  length-drop, ℕ, zero, suc, ◌+◌, ◌-◌, ◌*◌, ◌^◌, ◌≤◌, ◌<◌, ◌≡◌, refl, sym, ap, ◌∙◌, inl, inr, false,
  Option, some, List, [], ◌∷◌, ◌++◌, arith, ltb, ◌==◌, Bool-cases, length, take, drop,
  length-append,
}
use multithreaded_exchange_s.Assembler.{
  Frame, next, buffered, FrameAssembler, append, compact, read_frame,
}
use multithreaded_exchange_s.Wire.{gather, Result, ok, get_u8, emit}
use multithreaded_exchange_s.Wire.RoundTrip.{get-put_u32}

-- The bytes that are not read.
unfoldable pub unread : FrameAssembler → List ℕ
unread a = drop a.read_pos a.buffer

abbrev pub IsReadable : FrameAssembler → Type 0
IsReadable a = a.read_pos ≤ length a.buffer

drop_nil {ℓ} : {A : Type ℓ} (n : ℕ) → drop {A = A} n [] ≡ []
drop_nil zero = refl
drop_nil (suc n) = refl

drop_more {ℓ} : {A : Type ℓ} (n m : ℕ) (xs : List A) → drop (n + m) xs ≡ drop m (drop n xs)
drop_more zero m xs = ap (λ k. drop k xs) (omega arith)
drop_more (suc n) m [] = drop_nil (suc n + m) ∙ sym (drop_nil m)
drop_more (suc n) m (x ∷ xs) =
    ap (λ k. drop k (x ∷ xs)) {x = suc n + m} {y = suc (n + m)} (omega arith) ∙ drop_more n m xs

drop_before {ℓ} :
    {A : Type ℓ} (n : ℕ) (xs ys : List A) → n ≤ length xs → drop n (xs ++ ys) ≡ drop n xs ++ ys
drop_before zero xs ys h = refl
drop_before (suc n) [] ys h = absurd (omega (arith, h))
drop_before (suc n) (x ∷ xs) ys h = drop_before n xs ys (omega (arith, h))

-- Bytes that arrive join the bytes that are not read.
pub unread-append :
    (bytes : List ℕ) (a : FrameAssembler)
    → IsReadable a
    → unread (append bytes a) ≡ unread a ++ bytes
unfolding unread append
unread-append bytes a h = drop_before a.read_pos a.buffer bytes h

-- Compaction is not seen.
pub compact-unread :
    (a : FrameAssembler)
    → IsReadable a
    → (unread (compact a) ≡ unread a)
      × IsReadable (compact a)
      × ((compact a).max_body ≡ a.max_body)
      × (buffered (compact a) ≡ length (unread a))
unfolding unread compact buffered
compact-unread a h =
    let size = length-drop a.read_pos a.buffer in
    elim (Bool-cases (a.read_pos == 0)) [
      | inl z ↦ rw z (refl, h, refl, sym size)
      | inr z ↦ elim (Bool-cases (ltb (a.read_pos * 2) (length a.buffer))) [
        | inl s ↦ rw (z, s) (refl, h, refl, sym size)
        | inr s ↦ rw (z, s) (refl, omega arith, refl, omega arith)
      ]
    ]

-- A frame as the encoders make it.
unfoldable pub frame_of : ℕ → List ℕ → List ℕ
frame_of type payload = emit (length payload + 2) 0 4 ++ (1 ∷ type ∷ payload)

take_whole {ℓ} : {A : Type ℓ} (xs ys : List A) → take (length xs) (xs ++ ys) ≡ xs
take_whole [] ys = refl
take_whole (x ∷ xs) ys = ap (λ l. x ∷ l) (take_whole xs ys)

drop_whole {ℓ} : {A : Type ℓ} (xs ys : List A) → drop (length xs) (xs ++ ys) ≡ ys
drop_whole [] ys = refl
drop_whole (x ∷ xs) ys = drop_whole xs ys

get_u8_cons : (b : ℕ) (rest : List ℕ) → get_u8 (b ∷ rest) ≡ ok (b, rest)
unfolding get_u8 gather
get_u8_cons b rest =
    let enough : ltb (suc (length rest)) 1 ≡ false = ground arith in
    rw enough (ap (λ n. ok (n, rest)) (omega arith))

read_whole :
    (a : FrameAssembler) (type : ℕ) (payload rest : List ℕ)
    → length payload + 2 < 2 ^ 32
    → length payload + 2 ≤ a.max_body
    → buffered a ≡ length (frame_of type payload ++ rest)
    → read_frame a (frame_of type payload ++ rest)
      ≡ ok (
        some (record { version = 1; type = type; payload = payload }),
        record a { read_pos = a.read_pos + (4 + (length payload + 2)) },
      )
unfolding read_frame frame_of emit
read_whole a type payload rest w m e =
    let size : buffered a ≡ 6 + (length payload + length rest) =
      omega (arith, e, length-append payload rest) in
    let enough : ltb (buffered a) 6 ≡ false = ground arith in
    let short : ltb a.max_body (length payload + 2) ≡ false = ground arith in
    let long : ltb (length payload + 2) 2 ≡ false = ground arith in
    let all : ltb (buffered a) (4 + (length payload + 2)) ≡ false = ground arith in
    let same : length payload + 2 - 2 ≡ length payload = omega arith in
    rw (enough, get-put_u32 (length payload + 2) (1 ∷ type ∷ (payload ++ rest)) w)
      (rw (short, long, all, get_u8_cons 1 (type ∷ (payload ++ rest)))
        (rw (get_u8_cons type (payload ++ rest)) (rw (same, take_whole payload rest) refl)))

pub view_read :
    (a : FrameAssembler) (type : ℕ) (payload rest : List ℕ)
    {r : Result (Option Frame × FrameAssembler)}
    → unread (compact a) ≡ frame_of type payload ++ rest
    → read_frame (compact a) (frame_of type payload ++ rest) ≡ r
    → next a ≡ r
unfolding next unread
view_read a type payload rest e read = ap (read_frame (compact a)) e ∙ read

after_frame :
    (a : FrameAssembler) (type : ℕ) (payload rest : List ℕ)
    → unread a ≡ frame_of type payload ++ rest
    → unread (record a { read_pos = a.read_pos + (4 + (length payload + 2)) }) ≡ rest
unfolding unread frame_of emit
after_frame a type payload rest e =
    drop_more a.read_pos (4 + (length payload + 2)) a.buffer
    ∙ (ap (drop (4 + (length payload + 2))) e
        ∙ (ap (λ n. drop n (frame_of type payload ++ rest)) {x = 4 + (length payload + 2)}
              {y = suc (suc (suc (suc (suc (suc (length payload))))))} (omega arith)
            ∙ drop_whole payload rest))

room_after :
    (a : FrameAssembler) (type : ℕ) (payload rest : List ℕ)
    → IsReadable a
    → unread a ≡ frame_of type payload ++ rest
    → a.read_pos + (4 + (length payload + 2)) ≤ length a.buffer
unfolding unread frame_of emit
room_after a type payload rest h e =
    omega (arith, length-drop a.read_pos a.buffer, ap length e, length-append payload rest)

-- Where the bytes not read begin with a whole frame, within the limit on its body, `next` gives that
-- frame and leaves exactly the bytes behind it, however the buffer was filled and compacted.
pub next-frame_of :
    (a : FrameAssembler) (type : ℕ) (payload rest : List ℕ)
    → IsReadable a
    → length payload + 2 < 2 ^ 32
    → length payload + 2 ≤ a.max_body
    → unread a ≡ frame_of type payload ++ rest
    → (b : FrameAssembler) × (next a
        ≡ ok (some (record { version = 1; type = type; payload = payload }), b))
      × (unread b ≡ rest)
      × IsReadable b
unfolding next
next-frame_of a type payload rest h w m e =
    let c = compact-unread a h in
    let view : unread (compact a) ≡ frame_of type payload ++ rest = c.0 ∙ e in
    let read =
      read_whole (compact a) type payload rest w (omega (arith, m, c.2)) (c.3 ∙ ap length e) in
    (
      record (compact a) { read_pos = (compact a).read_pos + (4 + (length payload + 2)) },
      view_read a type payload rest view read,
      after_frame (compact a) type payload rest view,
      room_after (compact a) type payload rest c.1 view,
    )
