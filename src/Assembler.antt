-- ===== src/Assembler.antt =====
-- net/frame_assembler.hpp and net/frame_assembler.cpp: a byte stream cut back into frames. A throw
-- ends the session, so that the assembler is not kept with it.
pub mod Frames
pub mod Stream
pub mod Progress
use multithreaded_exchange_s.Protocol.{protocol_version}
use multithreaded_exchange_s.Wire.{Result, ok, err, ◌>>=◌, ProtocolError, get_u8, get_u32, emit}
use multithreaded_exchange_s.Prelude.{
  ℕ, zero, suc, ◌+◌, ◌-◌, ◌*◌, ◌/◌, ◌%◌, ◌^◌, ◌≤◌, ◌<◌, min, ◌≡◌, refl, sym, ap, ap₂, subst, ◌∙◌,
  ◌≢◌, ◌↔◌, ◌⊎◌, inl, inr, Bool, true, false, not, ◌&&◌, ◌||◌, Option, none, some, List, [], ◌∷◌,
  ◌++◌, map, append-nil, append_assoc, arith, ltb, leb, ◌==◌, if◌then◌else◌, ltb→lt, lt→ltb, ==_iff,
  Bool-cases, Option-cases, length, take, drop, length-append, take-append, drop-append, All,
  All-append, All-of, All-map,
}

pub record Frame : Type 0 where
  pub version : ℕ
  pub type : ℕ
  pub payload : List ℕ

pub record FrameAssembler : Type 0 where
  pub buffer : List ℕ
  pub read_pos : ℕ
  pub max_body : ℕ

unfoldable pub append : List ℕ → FrameAssembler → FrameAssembler
append bytes a = record a { buffer = a.buffer ++ bytes }

-- The read position is never past the end of the buffer.
unfoldable pub buffered : FrameAssembler → ℕ
buffered a = length a.buffer - a.read_pos

unfoldable pub compact : FrameAssembler → FrameAssembler
compact a =
    if a.read_pos == 0
    then a
    else if ltb (a.read_pos * 2) (length a.buffer)
    then a
    else record a { buffer = drop a.read_pos a.buffer; read_pos = 0 }

-- What `next` does once the buffer is compacted; `view` is the span of the bytes not read.
unfoldable pub read_frame : FrameAssembler → List ℕ → Result (Option Frame × FrameAssembler)
read_frame a view =
    if ltb (buffered a) 6
    then ok (none, a)
    else (get_u32 view >>= λ header.
        if ltb a.max_body header.0
        then err ProtocolError.too_long
        else if ltb header.0 2
        then err ProtocolError.too_short
        else if ltb (buffered a) (4 + header.0)
        then ok (none, a)
        else (get_u8 header.1 >>= λ version.
            if not (version.0 == protocol_version)
            then err ProtocolError.bad_version
            else (get_u8 version.1 >>= λ type. ok (
              some (record {
                version = version.0;
                type = type.0;
                payload = take (header.0 - 2) (drop 6 view);
              }),
              record a { read_pos = a.read_pos + (4 + header.0) },
            ))))

unfoldable pub next : FrameAssembler → Result (Option Frame × FrameAssembler)
next a = read_frame (compact a) (drop (compact a).read_pos (compact a).buffer)
