-- ===== src/Session/Threads.antt =====
-- net/session.cpp: the steps that threads take on one session. Each step is atomic: the test of send()
-- and its part under the mutex, the exchange of close() and its call of the handler. Any number of threads
-- send and close; reading and flushing are of the reactor's thread alone, so that the bytes that flush()
-- hands to the socket are still the front of the buffer when it erases them.
use multithreaded_exchange_s.Prelude.{◌-◌, ◌∷◌, ℕ, ◌+◌, ◌<◌, ◌≡◌, true, false, List, [], ◌++◌}
use multithreaded_exchange_s.Session.{
  call_close_handler, exchange_closed, queue_bytes, transmit, Session,
}
use multithreaded_exchange_s.Assembler.{FrameAssembler}

-- A session with the sends that have found it open and are not under the mutex yet, and the number of
-- closes that have found it open and have not called the handler yet.
pub record Threads : Type 0 where
  pub session : Session
  pub sending : List (List ℕ)
  pub closing : ℕ

abbrev pub alone : Session → Threads
alone s = record { session = s; sending = []; closing = 0 }

-- A step, with the bytes that it accepts for delivery. A test that finds the session closed ends its
-- send, and changes nothing.
pub data Step (m : Threads) : List ℕ → Threads → Type 0 where
  tests :
      (bytes : List ℕ)
      → m.session.closed ≡ false
      → Step m [] (record m { sending = bytes ∷ m.sending })
  accepts :
      (bytes : List ℕ) (before after : List (List ℕ)) (t : Session)
      → m.sending ≡ before ++ bytes ∷ after
      → queue_bytes bytes m.session ≡ (true, t)
      → Step m bytes (record m { session = t; sending = before ++ after })
  refuses :
      (bytes : List ℕ) (before after : List (List ℕ)) (t : Session)
      → m.sending ≡ before ++ bytes ∷ after
      → queue_bytes bytes m.session ≡ (false, t)
      → Step m [] (record m { session = t; sending = before ++ after })
  closes_first :
      (t : Session)
      → exchange_closed m.session ≡ (false, t)
      → Step m [] (record m { session = t; closing = m.closing + 1 })
  closes_again :
      (t : Session) → exchange_closed m.session ≡ (true, t) → Step m [] (record m { session = t })
  tells :
      0 < m.closing
      → Step m [] (record m { session = call_close_handler m.session; closing = m.closing - 1 })
  hears :
      (a : FrameAssembler) → Step m [] (record m { session = record m.session { assembler = a } })
  transmits : (n : ℕ) → Step m [] (record m { session = transmit n m.session })

pub data Reach (m : Threads) : List ℕ → Threads → Type 0 where
  here : Reach m [] m
  next : {xs ys : List ℕ} {n o : Threads} → Reach m xs n → Step n ys o → Reach m (xs ++ ys) o
