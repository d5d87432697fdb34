-- ===== src/Chunk/Decoder/Inspect/Accepts.antt =====
-- When decode_one takes a chunk (src/protocol/chunk/chunk_decoder.cpp): from what the headers say and
-- what is there of the payload.
use rtmp_core.Base.{
  ℕ, ◌+◌, ◌≤◌, ◌≡◌, refl, ◌∙◌, inl, inr, Bool, true, false, some, List, arith, min, length,
  if◌then◌else◌, lt→leb, ◌==◌,
}
use rtmp_core.Core.ByteOrder.{read_u32_be}
use rtmp_core.Chunk.{extended_timestamp_marker}
use rtmp_core.Chunk.Decoder.Streams.{StreamState, find}
use rtmp_core.Chunk.Decoder.Inspect.{
  View, Front, Fields, accept, Chunk, read_front, read_fields, is_continuation, needs_extended,
  effective_delta, effective_timestamp, chunk_of, judge_chunk, inspect_fields, inspect_stream,
  inspect_front, inspect,
}
use rtmp_core.Chunk.Decoder.Inspect.Facts.{Known, inspect-some}

-- What read_front gives for the formats 0 and 3.
abbrev pub full : ℕ → ℕ → Front
full csid len = record { fmt = 0; csid = csid; basic_header_len = len; message_header_len = 11 }

abbrev pub bare : ℕ → ℕ → Front
bare csid len = record { fmt = 3; csid = csid; basic_header_len = len; message_header_len = 0 }

-- A format 0 chunk that starts a message, and the chunk of format 3 that goes on with one.
abbrev pub starting_chunk : ℕ → ℕ → StreamState → Bool → ℕ → Fields → ℕ → Chunk
starting_chunk input_chunk_size csid st extended total h timestamp = record {
  csid = csid;
  state = st;
  starting = true;
  needs_extended = extended;
  header_len = total;
  slice = min h.message_length input_chunk_size;
  length = h.message_length;
  type_id = h.message_type_id;
  stream_id = h.message_stream_id;
  delta = 0;
  timestamp = timestamp;
}

abbrev pub continuing_chunk : ℕ → ℕ → StreamState → ℕ → Chunk
continuing_chunk input_chunk_size csid st total = record {
  csid = csid;
  state = st;
  starting = false;
  needs_extended = st.extended_timestamp;
  header_len = total;
  slice = min st.bytes_remaining input_chunk_size;
  length = st.message_length;
  type_id = st.message_type_id;
  stream_id = st.message_stream_id;
  delta = st.timestamp_delta;
  timestamp = st.timestamp;
}

module _ (v : View) (buf : List ℕ) (csid len : ℕ) (st : StreamState) where
  inspect_front-full :
      Known v csid st
      → inspect_front v buf (full csid len) ≡ inspect_stream v buf (full csid len) st
  unfolding inspect_front
  inspect_front-full (inl e) = rw (e, inspect_front) refl
  inspect_front-full (inr (absent, fresh, room)) =
      rw (absent, lt→leb v.limits.max_chunk_streams (length v.streams) room, fresh, inspect_front)
        refl

  inspect_front-bare :
      find csid v.streams ≡ some st
      → inspect_front v buf (bare csid len) ≡ inspect_stream v buf (bare csid len) st
  unfolding inspect_front
  inspect_front-bare e = rw (e, inspect_front) refl

  inspect_fields-starting :
      (h : Fields) (extended : Bool) (total timestamp : ℕ)
      → is_continuation st ≡ false
      → (h.raw_ts_field == extended_timestamp_marker) ≡ extended
      → total ≡ len + 11 + (if extended then 4 else 0)
      → timestamp ≡ (if extended then read_u32_be buf (len + 11) else h.raw_ts_field)
      → h.message_length ≤ v.max_message_size
      → total + min h.message_length v.input_chunk_size ≤ length buf
      → inspect_fields v buf (full csid len) st h
        ≡ accept (starting_chunk v.input_chunk_size csid st extended total h timestamp)
  unfolding inspect_fields needs_extended judge_chunk chunk_of effective_delta effective_timestamp
  inspect_fields-starting h x total ts idle marked size time small there = ground arith

  inspect_fields-continuing :
      (h : Fields) (total : ℕ)
      → is_continuation st ≡ true
      → h.message_length ≡ st.message_length
      → h.message_type_id ≡ st.message_type_id
      → total ≡ len + (if st.extended_timestamp then 4 else 0)
      → total + min st.bytes_remaining v.input_chunk_size ≤ length buf
      → inspect_fields v buf (bare csid len) st h
        ≡ accept (continuing_chunk v.input_chunk_size csid st total)
  unfolding inspect_fields needs_extended judge_chunk chunk_of effective_delta effective_timestamp
  inspect_fields-continuing h total on same_length same_type size there = ground arith

  pub inspect-starting :
      (h : Fields) (extended : Bool) (total timestamp : ℕ)
      → read_front buf ≡ some (full csid len)
      → Known v csid st
      → read_fields 0 st buf len ≡ h
      → is_continuation st ≡ false
      → (h.raw_ts_field == extended_timestamp_marker) ≡ extended
      → total ≡ len + 11 + (if extended then 4 else 0)
      → timestamp ≡ (if extended then read_u32_be buf (len + 11) else h.raw_ts_field)
      → h.message_length ≤ v.max_message_size
      → total + min h.message_length v.input_chunk_size ≤ length buf
      → inspect v buf
        ≡ accept (starting_chunk v.input_chunk_size csid st extended total h timestamp)
  unfolding inspect_stream
  inspect-starting h x total ts front known fields idle marked size time small there =
      inspect-some v buf (full csid len) front
      ∙ inspect_front-full known
      ∙ rw (idle, fields) (inspect_fields-starting h x total ts idle marked size time small there)

  pub inspect-continuing :
      (total : ℕ)
      → read_front buf ≡ some (bare csid len)
      → find csid v.streams ≡ some st
      → is_continuation st ≡ true
      → total ≡ len + (if st.extended_timestamp then 4 else 0)
      → total + min st.bytes_remaining v.input_chunk_size ≤ length buf
      → inspect v buf ≡ accept (continuing_chunk v.input_chunk_size csid st total)
  unfolding inspect_stream read_fields
  inspect-continuing total front known on size there =
      inspect-some v buf (bare csid len) front
      ∙ inspect_front-bare known
      ∙ inspect_fields-continuing (read_fields 3 st buf len) total on refl refl size there
