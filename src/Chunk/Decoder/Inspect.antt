-- ===== src/Chunk/Decoder/Inspect.antt =====
-- The first part of ChunkDecoder::decode_one (src/protocol/chunk/chunk_decoder.cpp): what the front
-- of the buffer says, before anything is committed.
pub mod Append
pub mod Facts
pub mod Accepts
use rtmp_core.Base.{
  ℕ, ◌+◌, ◌*◌, ◌/◌, ◌%◌, ◌^◌, Bool, true, false, not, ◌&&◌, Option, none, some, List, min, length,
  ltb, leb, ◌==◌, if◌then◌else◌,
}
use rtmp_core.Core.Error.{ErrorCode, malformed_chunk, message_too_large}
use rtmp_core.Core.ByteOrder.{byte_at, read_u24_be, read_u32_be, read_u32_le}
use rtmp_core.Chunk.{extended_timestamp_marker}
use rtmp_core.Chunk.Decoder.Streams.{StreamState, StreamTable, new_stream, find}

-- ChunkDecoderLimits. The size of the first reservation changes no value, and is left out.
pub record Limits : Type 0 where
  pub max_chunk_streams : ℕ
  pub max_buffered_payload_bytes : ℕ
  pub max_chunk_size : ℕ

-- What this part reads of the decoder, beside the buffer.
pub record View : Type 0 where
  pub streams : StreamTable
  pub limits : Limits
  pub input_chunk_size : ℕ
  pub max_message_size : ℕ

-- The basic header, and the length of the message header that its format has.
pub record Front : Type 0 where
  pub fmt : ℕ
  pub csid : ℕ
  pub basic_header_len : ℕ
  pub message_header_len : ℕ

unfoldable pub basic_header_len : ℕ → ℕ
basic_header_len csid_field = if csid_field == 0 then 2 else if csid_field == 1 then 3 else 1

unfoldable pub chunk_stream_id : ℕ → List ℕ → ℕ
chunk_stream_id csid_field buf =
    if csid_field == 0
    then 64 + byte_at buf 1
    else if csid_field == 1
    then 64 + byte_at buf 1 + byte_at buf 2 * 256
    else csid_field

-- For formats 0 to 3; `fmt` has two bits.
unfoldable pub message_header_len : ℕ → ℕ
message_header_len fmt = if fmt == 0 then 11 else if fmt == 1 then 7 else if fmt == 2 then 3 else 0

abbrev pub front_of : ℕ → List ℕ → Front
front_of first buf = record {
  fmt = first / 2 ^ 6 % 4;
  csid = chunk_stream_id (first % 64) buf;
  basic_header_len = basic_header_len (first % 64);
  message_header_len = message_header_len (first / 2 ^ 6 % 4);
}

-- `none`: the buffer ends inside these headers.
unfoldable pub read_front : List ℕ → Option Front
read_front buf =
    let f = front_of (byte_at buf 0) buf in
    if length buf == 0
    then none
    else if ltb (length buf) f.basic_header_len
    then none
    else if ltb (length buf) (f.basic_header_len + f.message_header_len)
    then none
    else some f

pub record Fields : Type 0 where
  pub raw_ts_field : ℕ
  pub message_length : ℕ
  pub message_type_id : ℕ
  pub message_stream_id : ℕ

unfoldable pub read_fields : ℕ → StreamState → List ℕ → ℕ → Fields
read_fields fmt st buf offset =
    if fmt == 0
    then record {
      raw_ts_field = read_u24_be buf offset;
      message_length = read_u24_be buf (offset + 3);
      message_type_id = byte_at buf (offset + 6);
      message_stream_id = read_u32_le buf (offset + 7);
    }
    else if fmt == 1
    then record {
      raw_ts_field = read_u24_be buf offset;
      message_length = read_u24_be buf (offset + 3);
      message_type_id = byte_at buf (offset + 6);
      message_stream_id = st.message_stream_id;
    }
    else record {
      raw_ts_field = if fmt == 2 then read_u24_be buf offset else 0;
      message_length = st.message_length;
      message_type_id = st.message_type_id;
      message_stream_id = st.message_stream_id;
    }

-- A chunk that is whole in the buffer, with the header values that are in effect for it.
pub record Chunk : Type 0 where
  pub csid : ℕ
  pub state : StreamState
  pub starting : Bool
  pub needs_extended : Bool
  pub header_len : ℕ
  pub slice : ℕ
  pub length : ℕ
  pub type_id : ℕ
  pub stream_id : ℕ
  pub delta : ℕ
  pub timestamp : ℕ

pub data Verdict : Type 0 where
  need_header : Verdict
  need_body : ℕ → StreamState → Verdict
  reject : ErrorCode → Verdict
  accept : Chunk → Verdict

-- DecodeResult::InsufficientData
abbrev pub waits : Verdict → Bool
waits need_header = true
waits (need_body csid st) = true
waits (reject code) = false
waits (accept c) = false

unfoldable pub is_continuation : StreamState → Bool
is_continuation st = st.has_header && ltb 0 st.bytes_remaining

pub needs_extended : ℕ → StreamState → Fields → Bool
needs_extended fmt st h =
    if fmt == 3 then st.extended_timestamp else h.raw_ts_field == extended_timestamp_marker

pub effective_delta : ℕ → StreamState → Fields → Bool → ℕ → ℕ
effective_delta fmt st h extended value =
    if is_continuation st
    then st.timestamp_delta
    else if fmt == 0
    then 0
    else if fmt == 3
    then (if extended then value else st.timestamp_delta)
    else (if extended then value else h.raw_ts_field)

pub effective_timestamp : ℕ → StreamState → Fields → Bool → ℕ → ℕ
effective_timestamp fmt st h extended value =
    if is_continuation st
    then st.timestamp
    else if fmt == 0
    then (if extended then value else h.raw_ts_field)
    else (st.timestamp + effective_delta fmt st h extended value) % 2 ^ 32

pub chunk_of : View → Front → StreamState → Fields → Bool → ℕ → ℕ → Chunk
chunk_of v f st h extended total value =
    let starting = not (is_continuation st) in
    let remaining = (if starting then h.message_length else st.bytes_remaining) in
    record {
      csid = f.csid;
      state = st;
      starting = starting;
      needs_extended = extended;
      header_len = total;
      slice = min remaining v.input_chunk_size;
      length = h.message_length;
      type_id = h.message_type_id;
      stream_id = if f.fmt == 0 then h.message_stream_id else st.message_stream_id;
      delta = effective_delta f.fmt st h extended value;
      timestamp = effective_timestamp f.fmt st h extended value;
    }

pub judge_chunk : View → ℕ → Chunk → Verdict
judge_chunk v size c =
    if c.starting && ltb v.max_message_size c.length
    then reject message_too_large
    else if ltb size (c.header_len + c.slice)
    then need_body c.csid c.state
    else accept c

-- From the header fields on.
pub inspect_fields : View → List ℕ → Front → StreamState → Fields → Verdict
inspect_fields v buf f st h =
    let offset = f.basic_header_len + f.message_header_len in
    let extended = needs_extended f.fmt st h in
    let total = (if extended then offset + 4 else offset) in
    let value = (if extended then read_u32_be buf offset else 0) in
    if ltb (length buf) total
    then need_body f.csid st
    else judge_chunk v (length buf) (chunk_of v f st h extended total value)

-- From the state of the chunk stream on.
pub inspect_stream : View → List ℕ → Front → StreamState → Verdict
inspect_stream v buf f st =
    if not (f.fmt == 3) && is_continuation st
    then reject malformed_chunk
    else inspect_fields v buf f st (read_fields f.fmt st buf f.basic_header_len)

-- `streams_[csid]` makes the entry that is missing, within the limit, and for format 0 only.
pub inspect_front : View → List ℕ → Front → Verdict
inspect_front v buf f = elim (find f.csid v.streams) [
  | none ↦
      if not (f.fmt == 0)
      then reject malformed_chunk
      else if leb v.limits.max_chunk_streams (length v.streams)
      then reject malformed_chunk
      else inspect_stream v buf f new_stream
  | some st ↦ inspect_stream v buf f st
]

pub inspect : View → List ℕ → Verdict
inspect v buf = elim (read_front buf) [ none ↦ need_header | some f ↦ inspect_front v buf f ]
