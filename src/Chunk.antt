-- ===== src/Chunk.antt =====
-- include/rtmp_server/protocol/chunk/chunk_types.hpp
pub mod MessageTypeId
pub mod Decoder
pub mod Encoder
use rtmp_core.Base.{ℕ, List}

abbrev pub default_chunk_size : ℕ
default_chunk_size = 128

abbrev pub extended_timestamp_marker : ℕ
extended_timestamp_marker = 0x00FF_FFFF

abbrev pub protocol_control_chunk_stream_id : ℕ
protocol_control_chunk_stream_id = 2

abbrev pub protocol_control_message_stream_id : ℕ
protocol_control_message_stream_id = 0

pub record RtmpMessage : Type 0 where
  pub chunk_stream_id : ℕ
  pub message_stream_id : ℕ
  pub message_type_id : ℕ
  pub timestamp : ℕ
  pub payload : List ℕ
