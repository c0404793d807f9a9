-- ===== src/Session/Loops.antt =====
-- Session::onReadable and Session::onWritable of net/session.cpp: their loops as sequences of steps.
use multithreaded_exchange_s.Session.{
  close, received, Heard, after_handler, after_next, on_readable, read_available, transmit,
  read_chunk, read_frames, session_of, Handled, Took, Session, flush, on_writable, exchange_closed,
  call_close_handler,
}
use multithreaded_exchange_s.Assembler.Progress.{next-buffered}
use multithreaded_exchange_s.Assembler.{buffered, append, FrameAssembler, Frame, next}
use multithreaded_exchange_s.Wire.{ok, err, Result}
use multithreaded_exchange_s.Session.Threads.{Threads, Step, Reach, alone}
use multithreaded_exchange_s.ThreadSafeQueue.{is_nil}
use multithreaded_exchange_s.Prelude.{
  ℕ, zero, suc, ◌<◌, min, ◌≡◌, refl, sym, ap, subst, inl, inr, Bool, true, false, Option, none,
  some, List, [], ◌∷◌, ◌++◌, append-nil, append_assoc, arith, ◌==◌, if◌then◌else◌, Bool-cases,
  length, ◌>>=◌,
}

some-injective : {s t : Session} → some s ≡ some t → s ≡ t
some-injective e = cc

Reach-one : {m n : Threads} {bytes : List ℕ} → Step m bytes n → Reach m bytes n
Reach-one x = Reach.next Reach.here x

Reach-trans :
    {m n o : Threads} {xs ys : List ℕ} → Reach m xs n → Reach n ys o → Reach m (xs ++ ys) o
Reach-trans {m} {n} {xs = xs} r Reach.here = subst (λ b. Reach m b n) (sym (append-nil xs)) r
Reach-trans {m} {o = o} {xs = xs} r (Reach.next {xs = ys} {ys = zs} q x) =
    subst (λ b. Reach m b o) (append_assoc xs ys zs) (Reach.next (Reach-trans r q) x)

-- A close that no other thread comes between, as steps.
pub close-Reach : (s : Session) → Reach (alone s) [] (alone (close s))
unfolding close exchange_closed
close-Reach s = elim (Bool-cases (s.closed)) [
  | inl c ↦
      let same : record s { closed = true } ≡ close s = cc (c) in
      subst (λ t. Reach (alone s) [] (alone t)) same
        (Reach-one (Step.closes_again (record s { closed = true }) (cc (c))))
  | inr c ↦
      let same : call_close_handler (record s { closed = true }) ≡ close s = cc (c) in
      subst (λ t. Reach (alone s) [] (alone t)) same
        (Reach.next (Reach-one (Step.closes_first (record s { closed = true }) (cc (c))))
          (Step.tells (omega arith)))
]

-- What flush() and onWritable() do where they return.
Option-if :
    {s x t : Session} (b : Bool) {o : Option Session}
    → (if b then some x else o) ≡ some t
    → Reach (alone s) [] (alone x)
    → (o ≡ some t → Reach (alone s) [] (alone t))
    → Reach (alone s) [] (alone t)
Option-if {s} {x} {t = t} true e h k =
    let same : x ≡ t = cc (e) in subst (λ y. Reach (alone s) [] (alone y)) same h
Option-if false e h k = k e

flush-Reach :
    (answers : List Took) (s t : Session) → flush answers s ≡ some t → Reach (alone s) [] (alone t)
unfolding flush
flush-Reach [] s t e = Option-if (is_nil s.outbound) e Reach.here (λ f. absurd (cc (f)))
flush-Reach (Took.took n ∷ answers) s t e =
    let k = min n (min (length s.outbound) read_chunk) in
    Option-if (is_nil s.outbound) e Reach.here (λ f.
      Option-if (k == 0) f (close-Reach s)
        (λ g. Reach-trans (Reach-one (Step.transmits k)) (flush-Reach answers (transmit k s) t g)))
flush-Reach (Took.would_block ∷ answers) s t e =
    Option-if (is_nil s.outbound) e Reach.here
      (λ f. subst (λ y. Reach (alone s) [] (alone y)) (some-injective f) Reach.here)
flush-Reach (Took.interrupted ∷ answers) s t e =
    Option-if (is_nil s.outbound) e Reach.here (flush-Reach answers s t)
flush-Reach (Took.failed ∷ answers) s t e =
    Option-if (is_nil s.outbound) e Reach.here
      (λ f. subst (λ y. Reach (alone s) [] (alone y)) (some-injective f) (close-Reach s))

-- Where onWritable returns, what it did is a sequence of the session's steps, and it accepts nothing.
pub on_writable-Reach :
    (answers : List Took) (s t : Session)
    → on_writable answers s ≡ some t
    → Reach (alone s) [] (alone t)
unfolding on_writable
on_writable-Reach answers s t e = Option-if s.closed e Reach.here (flush-Reach answers s t)

-- A run that returns, as steps from the session before it.
pub record Returns (s : Session) (o : Option Session) : Type 0 where
  pub after : Session
  pub bytes : List ℕ
  pub returns : o ≡ some after
  pub steps : Reach (alone s) bytes (alone after)

-- The same of the loop over the frames.
record Reads (s : Session) (o : Option (Bool × Session)) : Type 0 where
  goes_on : Bool
  after : Session
  bytes : List ℕ
  returns : o ≡ some (goes_on, after)
  steps : Reach (alone s) bytes (alone after)

-- Steps before a run that returns.
Returns-after :
    {s m : Session} {bytes : List ℕ} {o : Option Session}
    → Reach (alone s) bytes (alone m)
    → Returns m o
    → Returns s o
Returns-after {bytes = bytes} r h = record {
  after = h.after;
  bytes = bytes ++ h.bytes;
  returns = h.returns;
  steps = Reach-trans r h.steps;
}

Reads-after :
    {s m : Session} {bytes : List ℕ} {o : Option (Bool × Session)}
    → Reach (alone s) bytes (alone m)
    → Reads m o
    → Reads s o
Reads-after {bytes = bytes} r h = record {
  goes_on = h.goes_on;
  after = h.after;
  bytes = bytes ++ h.bytes;
  returns = h.returns;
  steps = Reach-trans r h.steps;
}

-- Among the answers of recv() is one that ends the loop: EAGAIN, an end of the stream, or an error.
abbrev pub EndsRead : List Heard → Type 0
EndsRead [] = ⊥
EndsRead (Heard.got [] ∷ heard) = Unit
EndsRead (Heard.got (b ∷ bs) ∷ heard) = EndsRead heard
EndsRead (Heard.would_block ∷ heard) = Unit
EndsRead (Heard.interrupted ∷ heard) = EndsRead heard
EndsRead (Heard.failed ∷ heard) = Unit

module _ (handler : Frame → Session → Handled) where
  -- The handler reaches the session only through its public functions, which leave the assembler.
  pub record UsesSession : Type 0 where
    pub bytes : Frame → Session → List ℕ
    pub steps :
        (f : Frame) (s : Session) → Reach (alone s) (bytes f s) (alone (session_of (handler f s)))
    pub assembler : (f : Frame) (s : Session) → (session_of (handler f s)).assembler ≡ s.assembler

  ends :
      {s t : Session} (goes_on : Bool) → Reach (alone s) [] (alone t) → Reads s (some (goes_on, t))
  ends {t = t} goes_on x = record {
    goes_on = goes_on;
    after = t;
    bytes = [];
    returns = refl;
    steps = x;
  }

  after_handler-Reads :
      (rest : Session → Option (Bool × Session)) (h : Handled)
      → Reads (session_of h) (rest (session_of h))
      → Reads (session_of h) (after_handler rest h)
  after_handler-Reads rest (Handled.threw t) r = ends false (close-Reach _)
  after_handler-Reads rest (Handled.returned t) r = elim (Bool-cases (t.closed)) [
    | inl c ↦
        simp c
          (record { goes_on = false; after = t; bytes = []; returns = refl; steps = Reach.here })
    | inr c ↦ simp c r
  ]

  after_next-Reads :
      (rest : Session → Option (Bool × Session)) (s : Session)
      (r : Result (Option Frame × FrameAssembler))
      → UsesSession
      → ((f : Frame) (a : FrameAssembler) (t : Session)
          → r ≡ ok (some f, a)
          → t.assembler ≡ a
          → Reads t (rest t))
      → Reads s (after_next handler rest s r)
  after_next-Reads rest s (err e) u h = ends false (close-Reach _)
  after_next-Reads rest s (ok (none, a)) u h = ends true (Reach-one (Step.hears a))
  after_next-Reads rest s (ok (some f, a)) u h =
      let m = record s { assembler = a } in
      let t = session_of (handler f m) in
      Reads-after (Reach-trans (Reach-one (Step.hears a)) (u.steps f m))
        (after_handler-Reads rest (handler f m) (h f a t refl (u.assembler f m)))

  read_frames-Reads :
      (fuel : ℕ) (s : Session)
      → UsesSession
      → buffered s.assembler < fuel
      → Reads s (read_frames handler fuel s)
  unfolding read_frames
  read_frames-Reads zero s u h = absurd (omega (arith, h))
  read_frames-Reads (suc fuel) s u h =
      after_next-Reads (read_frames handler fuel) s (next s.assembler) u (λ f a t e same.
        read_frames-Reads fuel t u
          (omega (arith, h, next-buffered s.assembler f a e, ap buffered same)))

  goes-Returns :
      (heard : List Heard) (s : Session) (o : Option (Bool × Session))
      → Reads s o
      → ((t : Session) → Returns t (read_available handler heard t))
      → Returns s (o >>= λ out. if out.0 then read_available handler heard out.1 else some out.1)
  goes-Returns heard s o r h =
      subst
        (λ x.
          Returns s (x >>= λ out. if out.0 then read_available handler heard out.1 else some out.1))
        (sym r.returns) (Returns-after r.steps (goes r.goes_on r.after))
    where
      goes :
          (b : Bool) (t : Session)
          → Returns t (if b then read_available handler heard t else some t)
      goes true t = h t
      goes false t = record { after = t; bytes = []; returns = refl; steps = Reach.here }

  closes : (s : Session) → Returns s (some (close s))
  closes s = record { after = close s; bytes = []; returns = refl; steps = close-Reach s }

  unmoved : (s : Session) → Returns s (some s)
  unmoved s = record { after = s; bytes = []; returns = refl; steps = Reach.here }

  read_available-Returns :
      (heard : List Heard) (s : Session)
      → UsesSession
      → EndsRead heard
      → Returns s (read_available handler heard s)
  unfolding read_available
  read_available-Returns [] s u e = absurd e
  read_available-Returns (Heard.got [] ∷ heard) s u e = closes s
  read_available-Returns (Heard.got (b ∷ bs) ∷ heard) s u e =
      let t = received handler (b ∷ bs) s in
      Returns-after (Reach-one (Step.hears (append (b ∷ bs) s.assembler))) (
        goes-Returns heard t (read_frames handler (suc (buffered t.assembler)) t)
          (read_frames-Reads (suc (buffered t.assembler)) t u (omega arith))
          (λ m. read_available-Returns heard m u e))
  read_available-Returns (Heard.would_block ∷ heard) s u e = unmoved s
  read_available-Returns (Heard.interrupted ∷ heard) s u e = read_available-Returns heard s u e
  read_available-Returns (Heard.failed ∷ heard) s u e = closes s

  -- For a frame handler that uses the session's public functions only: onReadable returns once the socket
  -- answers EAGAIN, the end of the stream or an error, if it does not return before that, whatever bytes
  -- and interruptions come first; and what it does is a sequence of the session's steps.
  pub on_readable-Returns :
      (heard : List Heard) (s : Session)
      → UsesSession
      → EndsRead heard
      → Returns s (on_readable handler heard s)
  unfolding on_readable
  on_readable-Returns heard s u e = elim (Bool-cases (s.closed)) [
    | inl c ↦ simp c (unmoved s)
    | inr c ↦ simp c (read_available-Returns heard s u e)
  ]
