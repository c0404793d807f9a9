-- ===== src/Tests/Net.antt =====
-- The theorems on the sessions and the server, at a session with a bound of four bytes.
use multithreaded_exchange_s.Prelude.{
  some, ℕ, ◌+◌, ◌≤◌, ◌≡◌, refl, inl, inr, Bool, true, false, List, [], ◌∷◌, ◌++◌, arith, ltb,
  Bool-cases, length, if◌then◌else◌,
}
use multithreaded_exchange_s.Assembler.{buffered, compact, read_frame, next, append, Frame}
use multithreaded_exchange_s.Session.{
  read_frames, read_available, Handled, on_readable, Heard, Session, set_close_handler, create,
  send, queue_bytes,
}
use multithreaded_exchange_s.Session.Drain.{on_readable-append}
use multithreaded_exchange_s.Session.Steps.{queue_bytes-never_told, create-Reach}
use multithreaded_exchange_s.Session.Threads.{Threads, alone, Reach, Step}
use multithreaded_exchange_s.Server.Admission.{build_order-Builds, Builds}
use multithreaded_exchange_s.Server.{build_order}
use multithreaded_exchange_s.Prelude.Int.{pos}
use multithreaded_exchange_s.Session.Loops.{on_readable-Returns, Returns, UsesSession}
use multithreaded_exchange_s.Protocol.{OrderKind}
use multithreaded_exchange_s.Types.{Side}

abbrev fresh : Session
fresh = set_close_handler (create 4)

-- Three bytes are accepted and two of them sent; a send of four more has found the session open.
abbrev partly_sent : Session
partly_sent = record {
  assembler = record { buffer = []; read_pos = 0; max_body = 4096 };
  outbound = 3 ∷ [];
  max_outbound = 4;
  overflowed = 0;
  closed = false;
  has_close_handler = true;
  close_calls = 0;
  sent = 1 ∷ 2 ∷ [];
}

abbrev four_more : List ℕ
four_more = 7 ∷ 8 ∷ 9 ∷ 10 ∷ []

abbrev under_way : Threads
under_way = record { session = partly_sent; sending = four_more ∷ []; closing = 0 }

reach_under_way : Reach (alone fresh) (1 ∷ 2 ∷ 3 ∷ []) under_way
unfolding create set_close_handler queue_bytes
reach_under_way =
    let tested = Reach.next Reach.here (Step.tests (1 ∷ 2 ∷ 3 ∷ []) refl) in
    let tested_again = Reach.next tested (Step.tests four_more refl) in
    let accepted =
      Reach.next tested_again (Step.accepts (1 ∷ 2 ∷ 3 ∷ []) (four_more ∷ []) [] _ refl refl) in
    Reach.next accepted (Step.transmits 2)

create-Reach_example :
    (partly_sent.sent ++ partly_sent.outbound ≡ 1 ∷ 2 ∷ 3 ∷ [])
    × (length partly_sent.outbound ≤ 4)
    × (partly_sent.close_calls ≤ 1)
    × (partly_sent.closed ≡ false → partly_sent.close_calls ≡ 0)
create-Reach_example = create-Reach 4 (1 ∷ 2 ∷ 3 ∷ []) under_way reach_under_way

queue_bytes-never_told_example :
    ((queue_bytes four_more partly_sent).0 ≡ false)
    × ((queue_bytes four_more partly_sent).1.closed ≡ true)
    × ((queue_bytes four_more partly_sent).1.close_calls ≡ 0)
    × (0 ≤ 0)
queue_bytes-never_told_example =
    queue_bytes-never_told 4 (1 ∷ 2 ∷ 3 ∷ []) four_more [] [] [] under_way
      (record { session = (queue_bytes four_more partly_sent).1; sending = []; closing = 0 })
      reach_under_way refl refl (omega arith) Reach.here

-- A handler that answers each frame with its type.
abbrev echo : Frame → Session → Handled
echo f s = Handled.returned (send (f.type ∷ []) s).1

-- What a send to a session accepts, by whether its test finds the session closed.
abbrev answered_by : List ℕ → Bool × Session → List ℕ
answered_by bytes o = if o.0 then bytes else []

queue_steps :
    (bytes : List ℕ) (s : Session) (o : Bool × Session)
    → s.closed ≡ false
    → queue_bytes bytes s ≡ o
    → Reach (alone s) (answered_by bytes o) (alone o.1)
queue_steps bytes s (true, t) c e =
    Reach.next (Reach.next Reach.here (Step.tests bytes c)) (Step.accepts bytes [] [] t refl e)
queue_steps bytes s (false, t) c e =
    Reach.next (Reach.next Reach.here (Step.tests bytes c)) (Step.refuses bytes [] [] t refl e)

tested_steps :
    (bytes : List ℕ) (s : Session) (b : Bool)
    → s.closed ≡ b
    → let o = if b then (false, s) else queue_bytes bytes s in
      Reach (alone s) (answered_by bytes o) (alone o.1)
tested_steps bytes s true c = Reach.here
tested_steps bytes s false c = queue_steps bytes s (queue_bytes bytes s) c refl

echo_steps :
    (bytes : List ℕ) (s : Session)
    → Reach (alone s) (answered_by bytes (send bytes s)) (alone (send bytes s).1)
unfolding send
echo_steps bytes s = tested_steps bytes s s.closed refl

send-assembler : (bytes : List ℕ) (s : Session) → (send bytes s).1.assembler ≡ s.assembler
unfolding send queue_bytes
send-assembler bytes s = elim (Bool-cases (s.closed)) [
  | inl c ↦ simp c refl
  | inr c ↦ elim (Bool-cases (ltb s.max_outbound (length s.outbound + length bytes))) [
    | inl h ↦ simp (c, h) refl
    | inr h ↦ simp (c, h) refl
  ]
]

echo-UsesSession : UsesSession echo
echo-UsesSession = record {
  bytes = λ f s. answered_by (f.type ∷ []) (send (f.type ∷ []) s);
  steps = λ f s. echo_steps (f.type ∷ []) s;
  assembler = λ f s. send-assembler (f.type ∷ []) s;
}

-- A frame in two parts, and one of a version that is not spoken.
abbrev in_parts : List Heard
in_parts =
    Heard.got (3 ∷ 0 ∷ 0 ∷ 0 ∷ 1 ∷ [])
    ∷ Heard.interrupted
    ∷ Heard.got (2 ∷ 7 ∷ 3 ∷ 0 ∷ 0 ∷ 0 ∷ 9 ∷ 9 ∷ 9 ∷ [])
    ∷ Heard.would_block
    ∷ []

on_readable-Returns_example : Returns fresh (on_readable echo in_parts fresh)
on_readable-Returns_example = on_readable-Returns echo in_parts fresh echo-UsesSession tt

-- The rest of the frame comes in the same event as its first part, or in the next one.
abbrev first_part : List Heard
first_part = Heard.got (3 ∷ 0 ∷ 0 ∷ 0 ∷ 1 ∷ []) ∷ Heard.interrupted ∷ []

abbrev second_part : List Heard
second_part = Heard.got (2 ∷ 7 ∷ []) ∷ Heard.would_block ∷ []

abbrev half_read : Session
half_read = record fresh {
  assembler = record { buffer = 3 ∷ 0 ∷ 0 ∷ 0 ∷ 1 ∷ []; read_pos = 0; max_body = 4096 };
}

half_is_read : on_readable echo (first_part ++ Heard.would_block ∷ []) fresh ≡ some half_read
unfolding on_readable read_available read_frames next read_frame compact append buffered create
    set_close_handler
half_is_read = refl

on_readable-append_example :
    on_readable echo (first_part ++ second_part) fresh ≡ on_readable echo second_part half_read
unfolding create set_close_handler
on_readable-append_example =
    on_readable-append echo first_part second_part fresh half_read tt half_is_read refl

build_order-Builds_example :
    Builds 7 20 Side.buy OrderKind.iceberg
      (pos 101)
      30
      50
      (build_order 7 20 Side.buy OrderKind.iceberg (pos 101) 30 50)
build_order-Builds_example =
    build_order-Builds 7 20 Side.buy OrderKind.iceberg (pos 101) 30 50 (omega arith)
