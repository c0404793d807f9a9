-- ===== src/Session/Steps.antt =====
-- net/session.cpp: what every sequence of the threads' steps keeps.
use multithreaded_exchange_s.Session.Kept.{
  tells-Kept, again-Kept, first-Kept, exchanged, refuses-Kept, overflown, accepts-Kept,
  nothing_moves, queued, stays-Kept, Kept,
}
use multithreaded_exchange_s.Prelude.{
  ◌∷◌, length-drop, take-drop, ℕ, ◌+◌, ◌≤◌, ◌<◌, ◌≡◌, refl, sym, ap, subst, ◌∙◌, true, false, List,
  [], ◌++◌, append_assoc, arith, lt→ltb, length, take, drop,
}
use multithreaded_exchange_s.Session.Threads.{Threads, Step, Reach, alone}
use multithreaded_exchange_s.Session.{queue_bytes, set_close_handler, create, transmit}
use multithreaded_exchange_s.Prelude.Word.{add64}

Step-Kept : (m : Threads) {bytes : List ℕ} {n : Threads} → Step m bytes n → Kept m bytes n
Step-Kept m (Step.tests bytes c) =
    stays-Kept m (record m { sending = bytes ∷ m.sending })
      (record {
        stream = refl;
        bound = refl;
        shorter = omega arith;
        sending = λ h. absurd (cc (c, h));
      })
      refl (omega arith)
Step-Kept m (Step.accepts bytes before after t e q) =
    let (room, same) = queued bytes m.session t q in
    subst (λ s. Kept m bytes (record m { session = s; sending = before ++ after })) (sym same)
      (accepts-Kept m bytes before after e room)
Step-Kept m (Step.refuses bytes before after t e q) =
    subst (λ s. Kept m [] (record m { session = s; sending = before ++ after }))
      (sym (overflown bytes m.session t q)) (refuses-Kept m bytes before after e)
Step-Kept m (Step.closes_first t e) =
    let (unclosed, same) = exchanged m.session t false e in
    subst (λ s. Kept m [] (record m { session = s; closing = m.closing + 1 })) same
      (first-Kept m unclosed)
Step-Kept m (Step.closes_again t e) =
    subst (λ s. Kept m [] (record m { session = s })) (exchanged m.session t true e).1
      (again-Kept m)
Step-Kept m (Step.tells h) = tells-Kept m h
Step-Kept m (Step.hears a) =
    stays-Kept m (record m { session = record m.session { assembler = a } })
      (record { stream = refl; bound = refl; shorter = omega arith; sending = λ h. omega arith })
      refl (omega arith)
Step-Kept m (Step.transmits n) =
    stays-Kept m (record m { session = transmit n m.session })
      (record {
        stream =
            append_assoc m.session.sent (take n m.session.outbound) (drop n m.session.outbound)
            ∙ ap (λ l. m.session.sent ++ l) (take-drop n m.session.outbound);
        bound = refl;
        shorter = omega (arith, length-drop n m.session.outbound);
        sending = λ h. omega arith;
      })
      refl (omega arith)

both-Kept : {m n o : Threads} {xs ys : List ℕ} → Kept m xs n → Kept n ys o → Kept m (xs ++ ys) o
both-Kept {m} {n} {o} {xs} {ys} k l = record {
  stream =
      l.stream
      ∙ (ap (λ b. b ++ ys) k.stream ∙ append_assoc (m.session.sent ++ m.session.outbound) xs ys);
  bound = l.bound ∙ k.bound;
  within = λ h. l.within (k.within h);
  once = λ o. l.once (k.once o);
  most = λ o h. l.most (k.once o) (k.most o h);
  silent = λ h.
      let a = k.silent h in
      let b = l.silent a.0 in (b.0, omega (arith, a.1, b.1), omega (arith, a.2, b.2));
}

Reach-Kept : {m n : Threads} {bytes : List ℕ} → Reach m bytes n → Kept m bytes n
Reach-Kept {m} Reach.here =
    stays-Kept m m (nothing_moves m m.session m.closing refl refl refl) refl (omega arith)
Reach-Kept (Reach.next {n = n} r x) = both-Kept (Reach-Kept r) (Step-Kept n x)

-- Whatever steps the threads take on a new session, in whatever order: what the socket took followed by
-- what is queued is what the sends accepted, in order, with nothing lost or repeated; no more is queued
-- than the bound; and the close handler was called at most once, and not while the session is open.
pub create-Reach :
    (max_outbound : ℕ) (bytes : List ℕ) (n : Threads)
    → Reach (alone (set_close_handler (create max_outbound))) bytes n
    → (n.session.sent ++ n.session.outbound ≡ bytes)
      × (length n.session.outbound ≤ max_outbound)
      × (n.session.close_calls ≤ 1)
      × (n.session.closed ≡ false → n.session.close_calls ≡ 0)
unfolding create set_close_handler
create-Reach max_outbound bytes n r =
    let k = Reach-Kept r in
    (
      k.stream,
      omega (arith, k.within (omega arith), k.bound),
      omega (arith, k.most (λ h. refl) (omega arith)),
      λ h. omega (arith, k.once (λ h. refl) h),
    )

-- A send that is under way on an open session, reached from a new one, and that would overflow the
-- buffer is refused and leaves the session closed. Whatever steps the threads take from there, closes and
-- sends that were under way among them, the session stays closed, the close handler is never called, and
-- no send gets under way any more.
pub queue_bytes-never_told :
    (max_outbound : ℕ) (accepted bytes more : List ℕ) (before after : List (List ℕ)) (m n : Threads)
    → Reach (alone (set_close_handler (create max_outbound))) accepted m
    → m.sending ≡ before ++ bytes ∷ after
    → m.session.closed ≡ false
    → max_outbound < length m.session.outbound + length bytes
    → Reach
        (record m { session = (queue_bytes bytes m.session).1; sending = before ++ after })
        more
        n
    → ((queue_bytes bytes m.session).0 ≡ false)
      × (n.session.closed ≡ true)
      × (n.session.close_calls ≡ 0)
      × (length n.sending ≤ length (before ++ after))
unfolding create set_close_handler queue_bytes
queue_bytes-never_told max_outbound accepted bytes more before after m n r e c h q =
    let k = Reach-Kept r in
    let over =
      lt→ltb m.session.max_outbound (length m.session.outbound + length bytes)
        (omega (arith, h, k.bound)) in
    let dropped = record m.session {
      overflowed = add64 m.session.overflowed (length bytes);
      closed = true;
    } in
    let refused : queue_bytes bytes m.session ≡ (false, dropped) = cc (over) in
    let later = Reach-Kept (
      subst (λ o. Reach (record m { session = o.1; sending = before ++ after }) more n) refused
        q) in
    let a = later.silent refl in
    (ap (λ o. o.0) refused, a.0, omega (arith, a.1, k.once (λ h. refl) c), a.2)
