-- ===== src/Session/Kept.antt =====
-- net/session.cpp: what a step keeps, kind by kind.
use multithreaded_exchange_s.Prelude.{
  Bool, ◌-◌, ◌∷◌, ℕ, ◌+◌, ◌≤◌, ◌<◌, ◌≡◌, refl, sym, ap, ap₂, subst, ◌∙◌, inl, inr, true, false,
  List, [], ◌++◌, append-nil, append_assoc, arith, ltb, Bool-cases, length, length-append,
}
use multithreaded_exchange_s.Session.Threads.{Threads}
use multithreaded_exchange_s.Session.{exchange_closed, call_close_handler, queue_bytes, Session}
use multithreaded_exchange_s.Prelude.Word.{add64}

-- The calls of the close handler, made and to come.
abbrev pub calls : Threads → ℕ
calls m = m.session.close_calls + m.closing

-- What the steps keep.
pub record Kept (m : Threads) (bytes : List ℕ) (n : Threads) : Type 0 where
  pub stream :
      n.session.sent ++ n.session.outbound ≡ (m.session.sent ++ m.session.outbound) ++ bytes
  pub bound : n.session.max_outbound ≡ m.session.max_outbound
  pub within :
      length m.session.outbound ≤ m.session.max_outbound
      → length n.session.outbound ≤ n.session.max_outbound
  pub once : (m.session.closed ≡ false → calls m ≡ 0) → n.session.closed ≡ false → calls n ≡ 0
  pub most : (m.session.closed ≡ false → calls m ≡ 0) → calls m ≤ 1 → calls n ≤ 1
  pub silent :
      m.session.closed ≡ true
      → (n.session.closed ≡ true) × (calls n ≤ calls m) × (length n.sending ≤ length m.sending)

-- A step that delivers what was to be delivered, and opens nothing.
pub record Quiet (m n : Threads) : Type 0 where
  pub stream : n.session.sent ++ n.session.outbound ≡ m.session.sent ++ m.session.outbound
  pub bound : n.session.max_outbound ≡ m.session.max_outbound
  pub shorter : length n.session.outbound ≤ length m.session.outbound
  pub sending : m.session.closed ≡ true → length n.sending ≤ length m.sending

pub stays-Kept :
    (m n : Threads)
    → Quiet m n
    → n.session.closed ≡ m.session.closed
    → calls n ≤ calls m
    → Kept m [] n
stays-Kept m n q c k = record {
  stream = q.stream ∙ sym (append-nil (m.session.sent ++ m.session.outbound));
  bound = q.bound;
  within = λ h. omega (arith, h, q.bound, q.shorter);
  once = λ o h. omega (arith, k, o (sym c ∙ h));
  most = λ o h. omega (arith, k, h);
  silent = λ h. (c ∙ h, k, q.sending h);
}

-- One after which the session is closed, with no call more to come.
drops-Kept : (m n : Threads) → Quiet m n → n.session.closed ≡ true → calls n ≤ calls m → Kept m [] n
drops-Kept m n q c k = record {
  stream = q.stream ∙ sym (append-nil (m.session.sent ++ m.session.outbound));
  bound = q.bound;
  within = λ h. omega (arith, h, q.bound, q.shorter);
  once = λ o h. absurd (cc (c, h));
  most = λ o h. omega (arith, k, h);
  silent = λ h. (c, k, q.sending h);
}

-- One that closes an open session, with one call to come.
shuts-Kept :
    (m n : Threads)
    → Quiet m n
    → m.session.closed ≡ false
    → n.session.closed ≡ true
    → calls n ≤ calls m + 1
    → Kept m [] n
shuts-Kept m n q b c k = record {
  stream = q.stream ∙ sym (append-nil (m.session.sent ++ m.session.outbound));
  bound = q.bound;
  within = λ h. omega (arith, h, q.bound, q.shorter);
  once = λ o h. absurd (cc (c, h));
  most = λ o h. omega (arith, k, o b);
  silent = λ h. absurd (cc (h, b));
}

one_fewer :
    (sending before after : List (List ℕ)) (bytes : List ℕ)
    → sending ≡ before ++ bytes ∷ after
    → length (before ++ after) ≤ length sending
one_fewer sending before after bytes e =
    omega (arith, ap length e, length-append before (bytes ∷ after), length-append before after)

-- The two ends of the part under the mutex.
pub queued :
    (bytes : List ℕ) (s t : Session)
    → queue_bytes bytes s ≡ (true, t)
    → (length s.outbound + length bytes ≤ s.max_outbound)
      × (t ≡ record s { outbound = s.outbound ++ bytes })
unfolding queue_bytes
queued bytes s t e = elim (Bool-cases (ltb s.max_outbound (length s.outbound + length bytes))) [
  | inl h ↦ absurd (cc (e, h))
  | inr h ↦ (ground arith, cc (e, h))
]

pub overflown :
    (bytes : List ℕ) (s t : Session)
    → queue_bytes bytes s ≡ (false, t)
    → t ≡ record s { overflowed = add64 s.overflowed (length bytes); closed = true }
unfolding queue_bytes
overflown bytes s t e = elim (Bool-cases (ltb s.max_outbound (length s.outbound + length bytes))) [
  | inl h ↦ cc (e, h)
  | inr h ↦ absurd (cc (e, h))
]

pub accepts-Kept :
    (m : Threads) (bytes : List ℕ) (before after : List (List ℕ))
    → m.sending ≡ before ++ bytes ∷ after
    → length m.session.outbound + length bytes ≤ m.session.max_outbound
    → Kept m bytes (record m {
      session = record m.session { outbound = m.session.outbound ++ bytes };
      sending = before ++ after;
    })
accepts-Kept m bytes before after e room = record {
  stream = sym (append_assoc m.session.sent m.session.outbound bytes);
  bound = refl;
  within = λ h. omega (arith, room, length-append m.session.outbound bytes);
  once = λ o h. o h;
  most = λ o h. h;
  silent = λ h. (h, omega arith, one_fewer m.sending before after bytes e);
}

pub refuses-Kept :
    (m : Threads) (bytes : List ℕ) (before after : List (List ℕ))
    → m.sending ≡ before ++ bytes ∷ after
    → Kept m [] (record m {
      session = record m.session {
        overflowed = add64 m.session.overflowed (length bytes);
        closed = true;
      };
      sending = before ++ after;
    })
refuses-Kept m bytes before after e =
    drops-Kept m _
      (record {
        stream = refl;
        bound = refl;
        shorter = omega arith;
        sending = λ h. one_fewer m.sending before after bytes e;
      })
      refl (omega arith)

-- A step on the flag or the handler alone.
pub nothing_moves :
    (m : Threads) (s : Session) (closing : ℕ)
    → s.sent ≡ m.session.sent
    → s.outbound ≡ m.session.outbound
    → s.max_outbound ≡ m.session.max_outbound
    → Quiet m (record m { session = s; closing = closing })
nothing_moves m s closing a b c = record {
  stream = ap₂ (λ x y. x ++ y) a b;
  bound = c;
  shorter = omega (arith, ap length b);
  sending = λ h. omega arith;
}

pub exchanged :
    (s t : Session) (was : Bool)
    → exchange_closed s ≡ (was, t)
    → (s.closed ≡ was) × (record s { closed = true } ≡ t)
unfolding exchange_closed
exchanged s t was e = (ap (λ o. o.0) e, ap (λ o. o.1) e)

pub first-Kept :
    (m : Threads)
    → m.session.closed ≡ false
    → Kept m [] (record m { session = record m.session { closed = true }; closing = m.closing + 1 })
first-Kept m c =
    shuts-Kept m _
      (nothing_moves m (record m.session { closed = true }) (m.closing + 1) refl refl refl) c refl
      (omega arith)

pub again-Kept :
    (m : Threads) → Kept m [] (record m { session = record m.session { closed = true } })
again-Kept m =
    drops-Kept m _ (nothing_moves m (record m.session { closed = true }) m.closing refl refl refl)
      refl (omega arith)

pub tells-Kept :
    (m : Threads)
    → 0 < m.closing
    → Kept m [] (record m { session = call_close_handler m.session; closing = m.closing - 1 })
unfolding call_close_handler
tells-Kept m h = elim (Bool-cases (m.session.has_close_handler)) [
  | inl c ↦
      let told = record m.session { close_calls = m.session.close_calls + 1 } in
      let same : told ≡ call_close_handler m.session = cc (c) in
      subst (λ s. Kept m [] (record m { session = s; closing = m.closing - 1 })) same
        (stays-Kept m _ (nothing_moves m told (m.closing - 1) refl refl refl) refl
          (omega (arith, h)))
  | inr c ↦
      let same : m.session ≡ call_close_handler m.session = cc (c) in
      subst (λ s. Kept m [] (record m { session = s; closing = m.closing - 1 })) same
        (stays-Kept m _ (nothing_moves m m.session (m.closing - 1) refl refl refl) refl
          (omega (arith, h)))
]
