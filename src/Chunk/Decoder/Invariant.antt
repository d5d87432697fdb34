-- ===== src/Chunk/Decoder/Invariant.antt =====
-- What every call keeps of the bounds of chunk_decoder.hpp (ChunkDecoderLimits), for
-- src/protocol/chunk/chunk_decoder.cpp.
pub mod Keeps
pub mod Rounds
use rtmp_core.Base.{ℕ, ◌+◌, ◌^◌, ◌≤◌, ◌<◌, ◌≡◌, length, List, [], arith}
use rtmp_core.Chunk.Decoder.Streams.{StreamState}
use rtmp_core.Chunk.Decoder.Streams.Laws.{held, Every}
use rtmp_core.Chunk.Decoder.Inspect.{Limits}
use rtmp_core.Chunk.Decoder.{Parser, initial}

-- A message in progress is no longer than the limit.
abbrev pub WithinMessage : ℕ → StreamState → Type 0
WithinMessage limit st = length st.partial_payload + st.bytes_remaining ≤ limit

-- The counter is what the chunk streams hold, and their number is within its limit.
pub record Sound (p : Parser) : Type 0 where
  pub wide : p.limits.max_buffered_payload_bytes + 2 ^ 32 ≤ 2 ^ 64
  pub narrow : p.max_message_size < 2 ^ 32
  pub counted : p.buffered_payload_bytes ≡ held p.streams
  pub few : length p.streams ≤ p.limits.max_chunk_streams
  pub whole : Every (WithinMessage p.max_message_size) p.streams
  pub chunked : 1 ≤ p.input_chunk_size

-- The bytes outstanding over all chunk streams are within their limit, too.
pub record Inv (p : Parser) : Type 0 where
  pub sound : Sound p
  pub bounded : p.buffered_payload_bytes ≤ p.limits.max_buffered_payload_bytes

pub initial-Inv :
    (max_message_size : ℕ) (limits : Limits)
    → limits.max_buffered_payload_bytes + 2 ^ 32 ≤ 2 ^ 64
    → max_message_size < 2 ^ 32
    → Inv (initial max_message_size limits)
unfolding held
initial-Inv n limits wide narrow = record {
  sound = record {
    wide = wide;
    narrow = narrow;
    counted = omega arith;
    few = omega arith;
    whole = tt;
    chunked = omega arith;
  };
  bounded = omega arith;
}
