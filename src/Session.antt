-- ===== src/Session.antt =====
-- net/session.hpp and net/session.cpp: one client connection. What the socket answers to the calls of a
-- loop is a list; a loop that none of the answers ends is `none`, since it calls again. `sent` is what
-- the socket took. Its options are not modelled, nor are buffers of 2 ^ 64 bytes.
pub mod Threads
pub mod Kept
pub mod Steps
pub mod Loops
pub mod Drain
use multithreaded_exchange_s.Wire.{Result, ok, err}
use multithreaded_exchange_s.Assembler.{next, append, buffered, Frame, FrameAssembler}
use multithreaded_exchange_s.ThreadSafeQueue.{is_nil}
use multithreaded_exchange_s.Prelude.Word.{add64}
use multithreaded_exchange_s.Prelude.{
  ℕ, zero, suc, ◌+◌, ◌-◌, ◌*◌, ◌/◌, ◌%◌, ◌^◌, ◌≤◌, ◌<◌, min, ◌≡◌, refl, sym, ap, ap₂, subst, ◌∙◌,
  ◌≢◌, ◌↔◌, ◌⊎◌, inl, inr, Bool, true, false, not, ◌&&◌, ◌||◌, Option, none, some, List, [], ◌∷◌,
  ◌++◌, map, append-nil, append_assoc, arith, ltb, leb, ◌==◌, if◌then◌else◌, ltb→lt, lt→ltb, ==_iff,
  Bool-cases, Option-cases, length, take, drop, length-append, take-append, drop-append, All,
  All-append, All-of, All-map, ◌>>=◌, precondition,
}

-- One answer of `recv`; no bytes are the end of the stream.
pub data Heard : Type 0 where
  got : List ℕ → Heard
  would_block interrupted failed : Heard

-- One answer of `send`; it takes no more than it was given.
pub data Took : Type 0 where
  took : ℕ → Took
  would_block interrupted failed : Took

pub record Session : Type 0 where
  pub assembler : FrameAssembler
  pub outbound : List ℕ
  pub max_outbound : ℕ
  pub overflowed : ℕ
  pub closed : Bool
  pub has_close_handler : Bool
  -- How often the close handler was called, and the bytes that the socket took.
  pub close_calls : ℕ
  pub sent : List ℕ

-- kMaxFrameBody of net/protocol.hpp.
abbrev pub max_frame_body : ℕ
max_frame_body = 4096

unfoldable pub create : ℕ → Session
create max_outbound = record {
  assembler = record { buffer = []; read_pos = 0; max_body = max_frame_body };
  outbound = [];
  max_outbound = max_outbound;
  overflowed = 0;
  closed = false;
  has_close_handler = false;
  close_calls = 0;
  sent = [];
}

unfoldable pub set_close_handler : Session → Session
set_close_handler s = record s { has_close_handler = true }

-- The two parts of close(): the exchange, which gives the flag as it was, and the call of the handler.
unfoldable pub exchange_closed : Session → Bool × Session
exchange_closed s = (s.closed, record s { closed = true })

unfoldable pub call_close_handler : Session → Session
call_close_handler s =
    if s.has_close_handler then record s { close_calls = s.close_calls + 1 } else s

unfoldable pub close : Session → Session
unfolding exchange_closed call_close_handler
close s =
    let exchanged = exchange_closed s in
    if exchanged.0 then exchanged.1 else call_close_handler exchanged.1

-- The part of send() under the outbound mutex, which does not test the flag.
unfoldable pub queue_bytes : List ℕ → Session → Bool × Session
queue_bytes bytes s =
    if ltb s.max_outbound (length s.outbound + length bytes)
    then (false, record s { overflowed = add64 s.overflowed (length bytes); closed = true })
    else (true, record s { outbound = s.outbound ++ bytes })

-- A send() that no other thread comes between; Session/Threads has its two parts apart.
unfoldable pub send : List ℕ → Session → Bool × Session
unfolding queue_bytes
send bytes s = if s.closed then (false, s) else queue_bytes bytes s

unfoldable pub wants_write : Session → Bool
wants_write s = not (is_nil s.outbound)

-- The socket took n bytes of the front.
abbrev pub transmit : ℕ → Session → Session
transmit n s = record s { sent = s.sent ++ take n s.outbound; outbound = drop n s.outbound }

abbrev pub read_chunk : ℕ
read_chunk = 16 * 1024

unfoldable pub flush : List Took → Session → Option Session
unfolding close
flush [] s = if is_nil s.outbound then some s else none
flush (answer ∷ answers) s =
    let chunk = min (length s.outbound) read_chunk in
    if is_nil s.outbound then some s else elim answer [
      | Took.took n ↦
          if min n chunk == 0 then some (close s) else flush answers (transmit (min n chunk) s)
      | Took.would_block ↦ some s
      | Took.interrupted ↦ flush answers s
      | Took.failed ↦ some (close s)
    ]

unfoldable pub on_writable : List Took → Session → Option Session
unfolding flush
on_writable answers s = if s.closed then some s else flush answers s

-- What the frame handler, which the server always sets, does: it returns or throws ProtocolError, and
-- may have used the session.
pub data Handled : Type 0 where
  returned threw : Session → Handled

abbrev pub session_of : Handled → Session
session_of (Handled.returned s) = s
session_of (Handled.threw s) = s

-- What the loop over the frames does with the handler's end and with the result of `next`; `rest` is
-- the loop's next round. The result says whether readAvailable goes on.
abbrev pub after_handler : (Session → Option (Bool × Session)) → Handled → Option (Bool × Session)
after_handler rest (Handled.threw t) = some (false, close t)
after_handler rest (Handled.returned t) = if t.closed then some (false, t) else rest t

module _ (handler : Frame → Session → Handled) where
  abbrev pub after_next :
      (Session → Option (Bool × Session))
      → Session
      → Result (Option Frame × FrameAssembler)
      → Option (Bool × Session)
  after_next rest s (err e) = some (false, close s)
  after_next rest s (ok (none, a)) = some (true, record s { assembler = a })
  after_next rest s (ok (some frame, a)) =
      after_handler rest (handler frame (record s { assembler = a }))

  -- The loop over the frames in the buffer; `none` is fuel that is used up.
  unfoldable pub read_frames : ℕ → Session → Option (Bool × Session)
  read_frames zero s = none
  read_frames (suc fuel) s = after_next (read_frames fuel) s (next s.assembler)

  abbrev pub received : List ℕ → Session → Session
  received bytes s = record s { assembler = append bytes s.assembler }

  unfoldable pub read_available : List Heard → Session → Option Session
  read_available [] s = none
  read_available (Heard.got [] ∷ heard) s = some (close s)
  read_available (Heard.got (b ∷ bs) ∷ heard) s =
      let t = received (b ∷ bs) s in
      read_frames (suc (buffered t.assembler)) t >>= λ out.
      if out.0 then read_available heard out.1 else some out.1
  read_available (Heard.would_block ∷ heard) s = some s
  read_available (Heard.interrupted ∷ heard) s = read_available heard s
  read_available (Heard.failed ∷ heard) s = some (close s)

  unfoldable pub on_readable : List Heard → Session → Option Session
  on_readable heard s = if s.closed then some s else read_available heard s
