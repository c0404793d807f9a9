-- ===== src/Tests/Stream.antt =====
-- The theorems on the frame assembler at concrete streams.
use multithreaded_exchange_s.Assembler.Stream.{next-encode_client, next-partial}
use multithreaded_exchange_s.Assembler.Frames.{next-frame_of, IsReadable, frame_of, unread}
use multithreaded_exchange_s.Protocol.{decode_client_message, encode_client, ClientMessage}
use multithreaded_exchange_s.Wire.{ok, emit}
use multithreaded_exchange_s.Assembler.{next, Frame, FrameAssembler}
use multithreaded_exchange_s.Prelude.Int.{negsuc}
use multithreaded_exchange_s.Prelude.{◌≡◌, refl, none, some, [], ◌∷◌, ◌++◌, arith}

abbrev new_terms : ClientMessage
new_terms = ClientMessage.modify_order 7 900 (some (negsuc 4))

-- One byte already read, a message, and two bytes of the next one.
abbrev with_message : FrameAssembler
with_message = record {
  buffer = 0 ∷ (encode_client new_terms ++ 10 ∷ 0 ∷ []);
  read_pos = 1;
  max_body = 4096;
}

abbrev with_three : FrameAssembler
with_three = record {
  buffer = 9 ∷ 9 ∷ 3 ∷ 0 ∷ 0 ∷ 0 ∷ 1 ∷ 2 ∷ 7 ∷ 5 ∷ [];
  read_pos = 2;
  max_body = 4096;
}

abbrev with_two : FrameAssembler
with_two = record { buffer = 9 ∷ 9 ∷ 3 ∷ 0 ∷ 0 ∷ 0 ∷ 1 ∷ 2 ∷ []; read_pos = 2; max_body = 4096 }

next-frame_of_example :
    (b : FrameAssembler) × (next with_three
      ≡ ok (some (record { version = 1; type = 2; payload = 7 ∷ [] }), b))
    × (unread b ≡ 5 ∷ [])
    × IsReadable b
unfolding unread frame_of emit
next-frame_of_example =
    next-frame_of with_three 2 (7 ∷ []) (5 ∷ []) (omega arith) (omega arith) (omega arith) refl

next-partial_example :
    (b : FrameAssembler) × (next with_two ≡ ok (none, b))
    × (unread b ≡ unread with_two)
    × IsReadable b
unfolding unread frame_of emit
next-partial_example =
    next-partial with_two (7 ∷ []) 2 (7 ∷ []) (omega arith) (omega arith) (omega arith)
      (omega arith) refl

next-encode_client_example :
    (f : Frame) × (b : FrameAssembler) × (next with_message ≡ ok (some f, b))
    × (decode_client_message f.type f.payload ≡ ok new_terms)
    × (unread b ≡ 10 ∷ 0 ∷ [])
    × IsReadable b
unfolding unread
next-encode_client_example =
    next-encode_client with_message new_terms (10 ∷ 0 ∷ []) (omega arith)
      (omega arith, omega arith, (omega arith, omega arith)) (omega arith) refl
