-- ===== src/Session/Drain.antt =====
-- Session::onReadable of net/session.cpp: under edge-triggered readiness, one event must read all that
-- the socket has.
use multithreaded_exchange_s.Assembler.{next, buffered, FrameAssembler, Frame}
use multithreaded_exchange_s.Prelude.{
  none, zero, suc, if◌then◌else◌, false, true, some, Bool, Option, inr, inl, Bool-cases, [], ℕ, ◌∷◌,
  List, ◌≡◌, refl, ap, subst, sym, ◌∙◌, ◌>>=◌, ◌++◌,
}
use multithreaded_exchange_s.Wire.{ok, err, Result}
use multithreaded_exchange_s.Session.{
  after_next, received, after_handler, call_close_handler, on_readable, read_available, read_frames,
  Handled, Heard, exchange_closed, Session, close,
}

-- None of the answers ends the loop: there are bytes, or the call was interrupted.
abbrev pub GoesOn : List Heard → Type 0
GoesOn [] = Unit
GoesOn (Heard.got [] ∷ heard) = ⊥
GoesOn (Heard.got (b ∷ bs) ∷ heard) = GoesOn heard
GoesOn (Heard.would_block ∷ heard) = ⊥
GoesOn (Heard.interrupted ∷ heard) = GoesOn heard
GoesOn (Heard.failed ∷ heard) = ⊥

close-closed : (s : Session) → (close s).closed ≡ true
unfolding close exchange_closed call_close_handler
close-closed s = elim (Bool-cases (s.closed)) [
  | inl c ↦ simp c refl
  | inr c ↦ elim (Bool-cases (s.has_close_handler)) [
    | inl h ↦ simp (c, h) refl
    | inr h ↦ simp (c, h) refl
  ]
]

if_true {ℓ} : {A : Type ℓ} (b : Bool) (x y : A) → b ≡ true → (if b then x else y) ≡ x
if_true true x y e = refl
if_true false x y e = absurd (cc (e))

if_false {ℓ} : {A : Type ℓ} (b : Bool) (x y : A) → b ≡ false → (if b then x else y) ≡ y
if_false true x y e = absurd (cc (e))
if_false false x y e = refl

stopped_with :
    {s u : Session} → ◌≡◌ {A = Option (Bool × Session)} (some (false, s)) (some (false, u)) → s ≡ u
stopped_with e = cc (e)

returned_with : {s t : Session} → some s ≡ some t → s ≡ t
returned_with e = cc (e)

module _ (handler : Frame → Session → Handled) where
  after_handler-closed :
      (rest : Session → Option (Bool × Session)) (h : Handled) (u : Session)
      → ((t : Session) → rest t ≡ some (false, u) → u.closed ≡ true)
      → after_handler rest h ≡ some (false, u)
      → u.closed ≡ true
  after_handler-closed rest (Handled.threw t) u k e =
      subst (λ x. x.closed ≡ true) (stopped_with e) (close-closed t)
  after_handler-closed rest (Handled.returned t) u k e = elim (Bool-cases (t.closed)) [
    | inl c ↦ subst (λ x. x.closed ≡ true) (stopped_with (sym (if_true t.closed _ _ c) ∙ e)) c
    | inr c ↦ k t (sym (if_false t.closed _ _ c) ∙ e)
  ]

  after_next-closed :
      (rest : Session → Option (Bool × Session)) (s : Session)
      (r : Result (Option Frame × FrameAssembler)) (u : Session)
      → ((t : Session) → rest t ≡ some (false, u) → u.closed ≡ true)
      → after_next handler rest s r ≡ some (false, u)
      → u.closed ≡ true
  after_next-closed rest s (err x) u k e =
      subst (λ y. y.closed ≡ true) (stopped_with e) (close-closed s)
  after_next-closed rest s (ok (none, a)) u k e = absurd (cc (e))
  after_next-closed rest s (ok (some f, a)) u k e =
      after_handler-closed rest (handler f (record s { assembler = a })) u k e

  -- The loop over the frames ends the reading only where the session is closed.
  read_frames-closed :
      (fuel : ℕ) (s u : Session) → read_frames handler fuel s ≡ some (false, u) → u.closed ≡ true
  unfolding read_frames
  read_frames-closed zero s u e = absurd (cc (e))
  read_frames-closed (suc fuel) s u e =
      after_next-closed (read_frames handler fuel) s (next s.assembler) u
        (λ t k. read_frames-closed fuel t u k) e

  abbrev goes_on_with : List Heard → Option (Bool × Session) → Option Session
  goes_on_with heard o =
      o >>= λ out. if out.0 then read_available handler heard out.1 else some out.1

  frames-append :
      (heard more : List Heard) (o : Option (Bool × Session)) (t : Session)
      → ((u : Session) → o ≡ some (false, u) → u.closed ≡ true)
      → ((u : Session)
          → read_available handler (heard ++ Heard.would_block ∷ []) u ≡ some t
          → read_available handler (heard ++ more) u ≡ read_available handler more t)
      → goes_on_with (heard ++ Heard.would_block ∷ []) o ≡ some t
      → t.closed ≡ false
      → goes_on_with (heard ++ more) o ≡ read_available handler more t
  frames-append heard more none t k h e c = absurd (cc (e))
  frames-append heard more (some (true, u)) t k h e c = h u e
  frames-append heard more (some (false, u)) t k h e c = absurd (cc (k u refl, returned_with e, c))

  read_available-append :
      (heard more : List Heard) (s t : Session)
      → GoesOn heard
      → read_available handler (heard ++ Heard.would_block ∷ []) s ≡ some t
      → t.closed ≡ false
      → read_available handler (heard ++ more) s ≡ read_available handler more t
  unfolding read_available
  read_available-append [] more s t g e c = ap (read_available handler more) (returned_with e)
  read_available-append (Heard.got [] ∷ heard) more s t g e c = absurd g
  read_available-append (Heard.got (b ∷ bs) ∷ heard) more s t g e c =
      let r = received handler (b ∷ bs) s in
      frames-append heard more (read_frames handler (suc (buffered r.assembler)) r) t
        (λ u k. read_frames-closed (suc (buffered r.assembler)) r u k)
        (λ u k. read_available-append heard more u t g k c) e c
  read_available-append (Heard.would_block ∷ heard) more s t g e c = absurd g
  read_available-append (Heard.interrupted ∷ heard) more s t g e c =
      read_available-append heard more s t g e c
  read_available-append (Heard.failed ∷ heard) more s t g e c = absurd g

  -- One event reads all that the socket has: where bytes and interruptions up to an EAGAIN leave the
  -- session open, an event that brings them and any further answers is the event on the first ones,
  -- followed by an event on the further ones, for any frame handler.
  pub on_readable-append :
      (heard more : List Heard) (s t : Session)
      → GoesOn heard
      → on_readable handler (heard ++ Heard.would_block ∷ []) s ≡ some t
      → t.closed ≡ false
      → on_readable handler (heard ++ more) s ≡ on_readable handler more t
  unfolding on_readable
  on_readable-append heard more s t g e c = elim (Bool-cases (s.closed)) [
    | inl k ↦
        absurd (
          cc (subst (λ x. x.closed ≡ true) (returned_with (sym (if_true s.closed _ _ k) ∙ e)) k, c))
    | inr k ↦
        if_false s.closed _ _ k
        ∙ (read_available-append heard more s t g (sym (if_false s.closed _ _ k) ∙ e) c
            ∙ sym (if_false t.closed _ _ c))
  ]
