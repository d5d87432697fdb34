-- ===== src/Chunk/Decoder/RoundTrip/Commit.antt =====
-- What decode_one does with one piece of a message (src/protocol/chunk/chunk_decoder.cpp), once its
-- chunk is accepted.
use rtmp_core.Base.{
  ℕ, ◌+◌, ◌-◌, ◌^◌, ◌%◌, ◌≤◌, ◌<◌, ◌≡◌, refl, sym, Bool, true, false, ◌&&◌, ◌||◌, List, [], ◌∷◌,
  ◌++◌, arith, length, ◌==◌,
}
use rtmp_core.Chunk.{RtmpMessage}
use rtmp_core.Chunk.MessageTypeId
use rtmp_core.Chunk.Decoder.{
  Parser, consumed, delivered, view, settle, release, message_of, deliver, handle_protocol_control,
  handle_complete_message,
}
use rtmp_core.Chunk.Decoder.Streams.{StreamState, put}
use rtmp_core.Chunk.Decoder.Streams.Laws.{put-put}
use rtmp_core.Chunk.Decoder.Inspect.{Chunk, is_continuation}
use rtmp_core.Chunk.Decoder.Inspect.Facts.{Known}
use rtmp_core.Chunk.Decoder.RoundTrip.Headers.{extended}

-- handle_protocol_control would look at this message.
abbrev pub is_control : RtmpMessage → Bool
is_control m =
    (m.message_stream_id == 0)
    && (m.message_type_id == MessageTypeId.set_chunk_size
        || m.message_type_id == MessageTypeId.abort_message
        || m.message_type_id == MessageTypeId.window_acknowledgement_size)

-- The decoder can take the message: nothing is in progress on its chunk stream, and it is within the limits.
pub record Ready (m : RtmpMessage) (st : StreamState) (p : Parser) : Type 0 where
  pub alive : p.failed ≡ false
  pub drained : p.buffer ≡ []
  pub known : Known (view p) m.chunk_stream_id st
  pub idle : is_continuation st ≡ false
  pub clear : st.partial_payload ≡ []
  pub small : length m.payload ≤ p.max_message_size
  pub room : p.buffered_payload_bytes + length m.payload ≤ p.limits.max_buffered_payload_bytes
  pub wide : p.limits.max_buffered_payload_bytes < 2 ^ 64
  pub chunked : 1 ≤ p.input_chunk_size
  pub free : is_control m ≡ false

-- The chunk stream with `done` of the payload, and with the message gone.
abbrev pub state_of : RtmpMessage → List ℕ → ℕ → StreamState
state_of m done remaining = record {
  has_header = true;
  timestamp = m.timestamp;
  timestamp_delta = 0;
  message_length = length m.payload;
  message_type_id = m.message_type_id;
  message_stream_id = m.message_stream_id;
  extended_timestamp = extended m;
  partial_payload = done;
  bytes_remaining = remaining;
  message_timestamp = m.timestamp;
}

abbrev pub during : RtmpMessage → List ℕ → ℕ → List ℕ → Parser → Parser
during m done remaining buf p = record p {
  buffer = buf;
  buffered_payload_bytes = p.buffered_payload_bytes + length done;
  streams = put m.chunk_stream_id (state_of m done remaining) p.streams;
}

-- The decoder once the message is delivered.
abbrev pub received : RtmpMessage → Parser → Parser
received m p = record p {
  buffer = [];
  streams = put m.chunk_stream_id (state_of m [] 0) p.streams;
  calls = p.calls ++ (delivered m ∷ []);
}

module _ (m : RtmpMessage) (p : Parser) (st : StreamState) (r : Ready m st p) where
  handle_protocol_control-free : (q : Parser) → handle_protocol_control m q ≡ (false, q)
  unfolding handle_protocol_control
  handle_protocol_control-free q = let free = r.free in ground arith

  -- A message whose payload is whole is handed on.
  handle_complete_message-whole :
      handle_complete_message m.chunk_stream_id (state_of m m.payload 0) (during m m.payload 0 [] p)
      ≡ received m p
  unfolding handle_complete_message release message_of deliver handle_protocol_control put
  handle_complete_message-whole =
      let room = r.room in
      let wide = r.wide in
      let freed : (p.buffered_payload_bytes + length m.payload + 2 ^ 64 - length m.payload) % 2 ^ 64
          ≡ p.buffered_payload_bytes =
        omega arith in
      rw
        (
          handle_protocol_control-free _,
          freed,
          put-put m.chunk_stream_id (state_of m m.payload 0) (state_of m [] 0) p.streams,
        )
        refl

  pub settle-whole :
      (c : Chunk)
      → c.csid ≡ m.chunk_stream_id
      → settle c (state_of m m.payload 0) (during m m.payload 0 [] p) ≡ (consumed, received m p)
  unfolding settle
  settle-whole c e = let room = r.room in rw (e, sym handle_complete_message-whole) (ground arith)

  pub settle-part :
      (c : Chunk) (done : List ℕ) (remaining : ℕ) (buf : List ℕ)
      → length done + remaining ≡ length m.payload
      → 1 ≤ remaining
      → settle c (state_of m done remaining) (during m done remaining buf p)
        ≡ (consumed, during m done remaining buf p)
  unfolding settle
  settle-part c done remaining buf e more = let room = r.room in ground arith
