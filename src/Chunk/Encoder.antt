-- ===== src/Chunk/Encoder.antt =====
-- src/protocol/chunk/chunk_encoder.cpp. A function returns the bytes that it appends to `out`. The
-- order of the entries of `streams_` is never read; here a new entry goes to the end.
pub mod BasicHeader
pub mod Tests
use rtmp_core.Base.{
  ℕ, zero, suc, ◌+◌, ◌-◌, ◌*◌, ◌/◌, ◌%◌, ◌^◌, Bool, true, false, not, ◌&&◌, ◌||◌, ltb, leb, ◌==◌,
  if◌then◌else◌, List, [], ◌∷◌, ◌++◌, length, take, drop,
}
use rtmp_core.Core.ByteOrder.{write_u24_be, write_u32_be, write_u32_le}
use rtmp_core.Chunk.{
  RtmpMessage, extended_timestamp_marker, protocol_control_chunk_stream_id,
  protocol_control_message_stream_id,
}
use rtmp_core.Chunk.MessageTypeId

-- The last header that was written on a chunk stream.
pub record HeaderState : Type 0 where
  pub has_header : Bool
  pub timestamp : ℕ
  pub timestamp_delta : ℕ
  pub message_length : ℕ
  pub message_type_id : ℕ
  pub message_stream_id : ℕ
  pub extended_timestamp : Bool
  pub extended_value : ℕ

abbrev pub new_header_state : HeaderState
new_header_state = record {
  has_header = false;
  timestamp = 0;
  timestamp_delta = 0;
  message_length = 0;
  message_type_id = 0;
  message_stream_id = 0;
  extended_timestamp = false;
  extended_value = 0;
}

pub record ChunkEncoder : Type 0 where
  pub chunk_size : ℕ
  pub streams : List (ℕ × HeaderState)

-- `streams_[csid]`, and the entry written back.
unfoldable pub header_of : ℕ → List (ℕ × HeaderState) → HeaderState
header_of csid [] = new_header_state
header_of csid ((k, st) ∷ rest) = if k == csid then st else header_of csid rest

unfoldable pub remember : ℕ → HeaderState → List (ℕ × HeaderState) → List (ℕ × HeaderState)
remember csid st [] = (csid, st) ∷ []
remember csid st ((k, old) ∷ rest) =
    if k == csid then (csid, st) ∷ rest else (k, old) ∷ remember csid st rest

-- A new size of 0 is ignored.
unfoldable pub change_chunk_size : ℕ → ChunkEncoder → ChunkEncoder
change_chunk_size n e = if n == 0 then e else record e { chunk_size = n }

unfoldable pub write_basic_header : ℕ → ℕ → List ℕ
write_basic_header fmt csid =
    let fmt_bits = fmt % 4 * 64 in
    let remainder = csid - 64 in
    if ltb csid 64
    then (fmt_bits + csid) ∷ []
    else if ltb csid (64 + 256)
    then fmt_bits ∷ remainder ∷ []
    else (fmt_bits + 1) ∷ (remainder % 256) ∷ (remainder / 256 % 256) ∷ []

abbrev pub write_extended : Bool → ℕ → List ℕ
write_extended active value = if active then write_u32_be value else []

-- The pieces after the first one, each behind a header of format 3; a piece takes a byte at least.
unfoldable pub write_rest : ℕ → List ℕ → ℕ → List ℕ → List ℕ
write_rest zero header chunk_size payload = []
write_rest (suc fuel) header chunk_size [] = []
write_rest (suc fuel) header chunk_size (b ∷ bs) =
    header
    ++ (take chunk_size (b ∷ bs) ++ write_rest fuel header chunk_size (drop chunk_size (b ∷ bs)))

unfoldable pub write_pieces : List ℕ → ℕ → List ℕ → List ℕ
write_pieces header chunk_size payload =
    take chunk_size payload
    ++ write_rest (length payload) header chunk_size (drop chunk_size payload)

-- The part of a format 0 header behind the basic header.
unfoldable pub write_full_header : Bool → RtmpMessage → List ℕ
write_full_header extended m =
    write_u24_be (if extended then extended_timestamp_marker else m.timestamp)
    ++ (write_u24_be (length m.payload % 2 ^ 32)
        ++ ((m.message_type_id ∷ []) ++ write_u32_le m.message_stream_id))

unfoldable pub encode_message_fmt0 : ℕ → RtmpMessage → List ℕ
encode_message_fmt0 chunk_size m =
    let extended = leb extended_timestamp_marker m.timestamp in
    write_basic_header 0 m.chunk_stream_id
    ++ (write_full_header extended m
        ++ (write_extended extended m.timestamp
            ++ write_pieces
                (write_basic_header 3 m.chunk_stream_id ++ write_extended extended m.timestamp)
                chunk_size m.payload))

-- `delta`, where the format has one.
abbrev pub delta_of : RtmpMessage → HeaderState → ℕ
delta_of m st = m.timestamp - st.timestamp

unfoldable pub format_of : RtmpMessage → HeaderState → ℕ
format_of m st =
    let have_valid_delta = st.has_header && leb st.timestamp m.timestamp in
    if not st.has_header
      || not (m.message_stream_id == st.message_stream_id)
      || not have_valid_delta
    then 0
    else if not (length m.payload == st.message_length)
        || not (m.message_type_id == st.message_type_id)
    then 1
    else if not (delta_of m st == st.timestamp_delta)
    then 2
    else 3

unfoldable pub extended_active : ℕ → RtmpMessage → HeaderState → Bool
extended_active fmt m st =
    if fmt == 0
    then leb extended_timestamp_marker m.timestamp
    else if fmt == 3
    then st.extended_timestamp
    else leb extended_timestamp_marker (delta_of m st)

unfoldable pub extended_value_of : ℕ → RtmpMessage → HeaderState → ℕ
extended_value_of fmt m st =
    if fmt == 0 then m.timestamp else if fmt == 3 then st.extended_value else delta_of m st

unfoldable pub write_message_header : ℕ → Bool → RtmpMessage → HeaderState → List ℕ
write_message_header fmt extended m st =
    let delta = write_u24_be (if extended then extended_timestamp_marker else delta_of m st) in
    if fmt == 0
    then write_full_header extended m
    else if fmt == 1
    then delta ++ (write_u24_be (length m.payload % 2 ^ 32) ++ m.message_type_id ∷ [])
    else if fmt == 2
    then delta
    else []

unfoldable pub header_after : ℕ → Bool → ℕ → RtmpMessage → HeaderState → HeaderState
header_after fmt extended value m st = record {
  has_header = true;
  timestamp = m.timestamp;
  timestamp_delta = if fmt == 0 then 0 else delta_of m st;
  message_length = length m.payload % 2 ^ 32;
  message_type_id = m.message_type_id;
  message_stream_id = m.message_stream_id;
  extended_timestamp = extended;
  extended_value = value;
}

unfoldable pub encode_message : RtmpMessage → ChunkEncoder → List ℕ × ChunkEncoder
encode_message m e =
    let st = header_of m.chunk_stream_id e.streams in
    let fmt = format_of m st in
    let extended = extended_active fmt m st in
    let value = extended_value_of fmt m st in
    let continuation = write_basic_header 3 m.chunk_stream_id ++ write_extended extended value in
    (
      write_basic_header fmt m.chunk_stream_id
          ++ (write_message_header fmt extended m st
              ++ (write_extended extended value
                  ++ write_pieces continuation e.chunk_size m.payload)),
      record e {
        streams = remember m.chunk_stream_id (header_after fmt extended value m st) e.streams;
      },
    )

abbrev pub control_message : ℕ → List ℕ → RtmpMessage
control_message type_id payload = record {
  chunk_stream_id = protocol_control_chunk_stream_id;
  message_stream_id = protocol_control_message_stream_id;
  message_type_id = type_id;
  timestamp = 0;
  payload = payload;
}

abbrev pub encode_set_chunk_size : ℕ → ChunkEncoder → List ℕ × ChunkEncoder
encode_set_chunk_size n e =
    encode_message (control_message MessageTypeId.set_chunk_size (write_u32_be (n % 2 ^ 31))) e

abbrev pub encode_abort_message : ℕ → ChunkEncoder → List ℕ × ChunkEncoder
encode_abort_message target e =
    encode_message (control_message MessageTypeId.abort_message (write_u32_be target)) e

abbrev pub encode_acknowledgement : ℕ → ChunkEncoder → List ℕ × ChunkEncoder
encode_acknowledgement n e =
    encode_message (control_message MessageTypeId.acknowledgement (write_u32_be n)) e

abbrev pub encode_window_acknowledgement_size : ℕ → ChunkEncoder → List ℕ × ChunkEncoder
encode_window_acknowledgement_size n e =
    encode_message (control_message MessageTypeId.window_acknowledgement_size (write_u32_be n)) e

-- `limit_type`: 0 hard, 1 soft, 2 dynamic.
abbrev pub encode_set_peer_bandwidth : ℕ → ℕ → ChunkEncoder → List ℕ × ChunkEncoder
encode_set_peer_bandwidth n limit_type e =
    encode_message
      (control_message MessageTypeId.set_peer_bandwidth (write_u32_be n ++ limit_type ∷ [])) e
