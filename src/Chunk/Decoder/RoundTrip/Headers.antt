-- ===== src/Chunk/Decoder/RoundTrip/Headers.antt =====
-- The headers of encode_message_fmt0 (src/protocol/chunk/chunk_encoder.cpp), as decode_one reads them.
use rtmp_core.Base.{
  ℕ, ◌+◌, ◌^◌, ◌%◌, ◌≤◌, ◌<◌, ◌≡◌, refl, ◌∙◌, Bool, true, some, List, [], ◌∷◌, ◌++◌, arith, length,
  leb, if◌then◌else◌,
}
use rtmp_core.Core.ByteOrder.{
  byte_at, write_u24_be, write_u32_be, write_u32_le, read_u24_be, read_u32_be, read_u32_le,
  read-write_u24_be, read-write_u32_be, read-write_u32_le,
}
use rtmp_core.Core.ByteOrder.Skip.{
  byte_at-skip, read_u24_be-skip, read_u32_be-skip, read_u32_le-skip,
}
use rtmp_core.Chunk.{RtmpMessage, extended_timestamp_marker}
use rtmp_core.Chunk.Decoder.Streams.{StreamState}
use rtmp_core.Chunk.Decoder.Inspect.{Fields, read_front, read_fields, message_header_len}
use rtmp_core.Chunk.Decoder.Inspect.Accepts.{full, bare}
use rtmp_core.Chunk.Encoder.{write_basic_header, write_full_header, write_extended}
use rtmp_core.Chunk.Encoder.BasicHeader.{read_front-write_basic_header}

-- The message has a place on the wire: its fields fit theirs.
pub record OnWire (m : RtmpMessage) : Type 0 where
  pub csid_low : 2 ≤ m.chunk_stream_id
  pub csid_high : m.chunk_stream_id < 65600
  pub short : length m.payload < 2 ^ 24
  pub timed : m.timestamp < 2 ^ 32
  pub streamed : m.message_stream_id < 2 ^ 32

abbrev pub extended : RtmpMessage → Bool
extended m = leb extended_timestamp_marker m.timestamp

abbrev pub extra : RtmpMessage → ℕ
extra m = if extended m then 4 else 0

-- The headers of the first chunk and of the others.
abbrev pub full_header : RtmpMessage → List ℕ
full_header m =
    write_basic_header 0 m.chunk_stream_id
    ++ (write_full_header (extended m) m ++ write_extended (extended m) m.timestamp)

abbrev pub bare_header : RtmpMessage → List ℕ
bare_header m = write_basic_header 3 m.chunk_stream_id ++ write_extended (extended m) m.timestamp

abbrev pub fields_of : RtmpMessage → Fields
fields_of m = record {
  raw_ts_field = if extended m then extended_timestamp_marker else m.timestamp;
  message_length = length m.payload;
  message_type_id = m.message_type_id;
  message_stream_id = m.message_stream_id;
}

pub length-write_full_header : (x : Bool) (m : RtmpMessage) → length (write_full_header x m) ≡ 11
unfolding write_full_header write_u24_be write_u32_le
length-write_full_header x m = refl

pub length-write_extended :
    (m : RtmpMessage) → length (write_extended (extended m) m.timestamp) ≡ extra m
unfolding write_u32_be
length-write_extended m = ground arith

module _ (m : RtmpMessage) (w : OnWire m) where
  pub front-full :
      (rest : List ℕ)
      → 11 ≤ length rest
      → read_front (write_basic_header 0 m.chunk_stream_id ++ rest)
        ≡ some (full m.chunk_stream_id (length (write_basic_header 0 m.chunk_stream_id)))
  unfolding message_header_len
  front-full rest room =
      read_front-write_basic_header 0 m.chunk_stream_id rest (omega arith) w.csid_low w.csid_high
        room

  pub front-bare :
      (rest : List ℕ)
      → read_front (write_basic_header 3 m.chunk_stream_id ++ rest)
        ≡ some (bare m.chunk_stream_id (length (write_basic_header 3 m.chunk_stream_id)))
  unfolding message_header_len
  front-bare rest =
      read_front-write_basic_header 3 m.chunk_stream_id rest (omega arith) w.csid_low w.csid_high
        (omega arith)

  pub read_fields-write_full_header :
      (st : StreamState) (front rest : List ℕ)
      → read_fields 0 st (front ++ (write_full_header (extended m) m ++ rest)) (length front)
        ≡ fields_of m
  unfolding read_fields write_full_header write_u24_be write_u32_le
  read_fields-write_full_header st front rest =
      let on = write_full_header (extended m) m ++ rest in
      let len = length front in
      let raw = (fields_of m).raw_ts_field in
      let size = length m.payload % 2 ^ 32 in
      let typed = m.message_type_id ∷ (write_u32_le m.message_stream_id ++ rest) in
      let narrow : raw < 2 ^ 24 = ground arith in
      let short = w.short in
      let ts : read_u24_be (front ++ on) len ≡ raw =
        read_u24_be-skip front on len 0 (omega arith)
        ∙ read-write_u24_be raw (write_u24_be size ++ typed) narrow in
      let sized : read_u24_be (front ++ on) (len + 3) ≡ length m.payload =
        read_u24_be-skip front on (len + 3) 3 refl
        ∙ read_u24_be-skip (write_u24_be raw) (write_u24_be size ++ typed) 3 0 refl
        ∙ read-write_u24_be size typed (omega arith)
        ∙ omega arith in
      let type_id : byte_at (front ++ on) (len + 6) ≡ m.message_type_id =
        byte_at-skip front on (len + 6) 6 refl in
      let stream_id : read_u32_le (front ++ on) (len + 7) ≡ m.message_stream_id =
        read_u32_le-skip front on (len + 7) 7 refl
        ∙ read_u32_le-skip (write_u24_be raw ++ (write_u24_be size ++ m.message_type_id ∷ []))
            (write_u32_le m.message_stream_id ++ rest) 7 0 refl
        ∙ read-write_u32_le m.message_stream_id rest w.streamed in
      rw (ts, sized, type_id, stream_id) refl

  pub read_u32_be-write_extended :
      (front rest : List ℕ)
      → extended m ≡ true
      → read_u32_be
          (front
            ++ (write_full_header (extended m) m
                ++ (write_extended (extended m) m.timestamp ++ rest)))
          (length front + 11)
        ≡ m.timestamp
  read_u32_be-write_extended front rest on =
      let header = write_full_header (extended m) m in
      let value = write_extended (extended m) m.timestamp ++ rest in
      read_u32_be-skip front (header ++ value) (length front + 11) 11 refl
      ∙ read_u32_be-skip header value 11 0 (omega (arith, length-write_full_header (extended m) m))
      ∙ rw on (read-write_u32_be m.timestamp rest w.timed)
