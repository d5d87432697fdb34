-- ===== src/Chunk/Decoder.antt =====
-- src/protocol/chunk/chunk_decoder.cpp: one pass of decode_one, and the loop of on_bytes_received.
-- The two counters that decode_one neither reads nor writes stand beside the rest, `Parser`.
-- `calls` lists what the message and the error handler were called with, first call first; the
-- handlers themselves do not call the decoder. Of the capacity of a vector nothing is modelled.
pub mod Streams
pub mod Inspect
pub mod Extend
pub mod Rounds
pub mod Fragments
pub mod Invariant
pub mod RoundTrip
pub mod Tests
use rtmp_core.Base.{
  ℕ, zero, suc, ◌+◌, ◌-◌, ◌%◌, ◌^◌, Bool, true, false, ◌&&◌, ◌||◌, Option, none, some, List, [],
  ◌∷◌, ◌++◌, length, take, drop, ltb, leb, ◌==◌, if◌then◌else◌,
}
use rtmp_core.Core.Error.{Error, ErrorCode, malformed_chunk, message_too_large, protocol}
use rtmp_core.Core.ByteOrder.{read_u32_be}
use rtmp_core.Chunk.{RtmpMessage, default_chunk_size, protocol_control_message_stream_id}
use rtmp_core.Chunk.MessageTypeId
use Streams.{StreamState, StreamTable, find, put}
use Inspect.{Limits, View, Verdict, need_header, need_body, reject, accept, Chunk, inspect}

pub data Call : Type 0 where
  delivered : RtmpMessage → Call
  reported : Error → Call

pub record Parser : Type 0 where
  pub buffer : List ℕ
  pub streams : StreamTable
  pub limits : Limits
  pub input_chunk_size : ℕ
  pub max_message_size : ℕ
  pub buffered_payload_bytes : ℕ
  pub window_ack_size : ℕ
  pub failed : Bool
  pub calls : List Call

pub data DecodeResult : Type 0 where
  consumed insufficient_data failure : DecodeResult

abbrev pub initial : ℕ → Limits → Parser
initial max_message_size limits = record {
  buffer = [];
  streams = [];
  limits = limits;
  input_chunk_size = default_chunk_size;
  max_message_size = max_message_size;
  buffered_payload_bytes = 0;
  window_ack_size = 0;
  failed = false;
  calls = [];
}

-- Arithmetic on the uint64_t counters.
abbrev pub add64 : ℕ → ℕ → ℕ
add64 a b = (a + b) % 2 ^ 64

abbrev pub sub64 : ℕ → ℕ → ℕ
sub64 a b = (a + 2 ^ 64 - b) % 2 ^ 64

abbrev pub call : Call → Parser → Parser
call c p = record p { calls = p.calls ++ (c ∷ []) }

pub fail : ErrorCode → Parser → Parser
fail code p = if p.failed then p else record p {
  buffer = [];
  streams = [];
  buffered_payload_bytes = 0;
  failed = true;
  calls = p.calls ++ (reported (record { code = code; category = protocol }) ∷ []);
}

pub set_chunk_size : ℕ → Parser → Parser
unfolding fail
set_chunk_size value p =
    if value == 0
    then fail malformed_chunk p
    else if ltb p.limits.max_chunk_size value
    then fail malformed_chunk p
    else record p { input_chunk_size = value }

pub abort_message : ℕ → Parser → Parser
abort_message target p = elim (find target p.streams) [
  | none ↦ p
  | some st ↦ record p {
    buffered_payload_bytes = sub64 p.buffered_payload_bytes (length st.partial_payload);
    streams = put target (record st { partial_payload = []; bytes_remaining = 0 }) p.streams;
  }
]

-- The flag says that the message stops here.
pub handle_protocol_control : RtmpMessage → Parser → Bool × Parser
unfolding fail set_chunk_size abort_message
handle_protocol_control m p =
    let short = ltb (length m.payload) 4 in
    let value = read_u32_be m.payload 0 in
    if (m.message_stream_id == protocol_control_message_stream_id)
    then (if m.message_type_id == MessageTypeId.set_chunk_size
        then (true, if short then fail malformed_chunk p else set_chunk_size (value % 2 ^ 31) p)
        else if m.message_type_id == MessageTypeId.abort_message
        then (true, if short then fail malformed_chunk p else abort_message value p)
        else if m.message_type_id == MessageTypeId.window_acknowledgement_size
        then (if short
            then (true, fail malformed_chunk p)
            else (false, record p { window_ack_size = value }))
        else (false, p))
    else (false, p)

pub message_of : ℕ → StreamState → RtmpMessage
message_of csid st = record {
  chunk_stream_id = csid;
  message_stream_id = st.message_stream_id;
  message_type_id = st.message_type_id;
  timestamp = st.message_timestamp;
  payload = st.partial_payload;
}

deliver : RtmpMessage → Bool × Parser → Parser
deliver m (handled, p) = if handled then p else call (delivered m) p

-- The payload leaves the decoder's accounting.
pub release : ℕ → StreamState → Parser → Parser
release csid st p = record p {
  buffered_payload_bytes = sub64 p.buffered_payload_bytes (length st.partial_payload);
  streams = put csid (record st { partial_payload = [] }) p.streams;
}

pub handle_complete_message : ℕ → StreamState → Parser → Parser
handle_complete_message csid st p =
    deliver (message_of csid st) (handle_protocol_control (message_of csid st) (release csid st p))

-- The state of the chunk stream once a new message has begun.
pub begin_message : Chunk → StreamState
begin_message c = record {
  has_header = true;
  timestamp = c.timestamp;
  timestamp_delta = c.delta;
  message_length = c.length;
  message_type_id = c.type_id;
  message_stream_id = c.stream_id;
  extended_timestamp = c.needs_extended;
  partial_payload = [];
  bytes_remaining = c.length;
  message_timestamp = c.timestamp;
}

-- With the slice added. It is at most what remains, so the subtraction does not wrap.
pub next_state : Chunk → List ℕ → StreamState
unfolding begin_message
next_state c bytes =
    let st = (if c.starting then begin_message c else c.state) in
    record st {
      partial_payload = st.partial_payload ++ bytes;
      bytes_remaining = st.bytes_remaining - c.slice;
    }

-- A new message drops what its chunk stream still held.
pub held_before : Chunk → ℕ → ℕ
held_before c held = if c.starting then sub64 held (length c.state.partial_payload) else held

-- A slice of 0 adds nothing.
pub store : Chunk → List ℕ → Parser → Parser
unfolding held_before
store c bytes p = record p {
  buffered_payload_bytes = add64 (held_before c p.buffered_payload_bytes) c.slice;
  streams = put c.csid (next_state c bytes) p.streams;
}

pub settle : Chunk → StreamState → Parser → DecodeResult × Parser
settle c st p =
    if ltb 0 c.slice && ltb p.limits.max_buffered_payload_bytes p.buffered_payload_bytes
    then (failure, fail message_too_large p)
    else if st.bytes_remaining == 0
    then (consumed, handle_complete_message c.csid st p)
    else (consumed, p)

-- The commit, once the bytes of the chunk are taken off the buffer.
pub finish : Chunk → List ℕ → Parser → DecodeResult × Parser
finish c bytes p = settle c (next_state c bytes) (store c bytes p)

pub commit : Chunk → Parser → DecodeResult × Parser
commit c p =
    let body = drop c.header_len p.buffer in
    finish c (take c.slice body) (record p { buffer = drop c.slice body })

abbrev pub view : Parser → View
view p = record {
  streams = p.streams;
  limits = p.limits;
  input_chunk_size = p.input_chunk_size;
  max_message_size = p.max_message_size;
}

pub apply : Verdict → Parser → DecodeResult × Parser
apply need_header p = (insufficient_data, p)
apply (need_body csid st) p = (insufficient_data, record p { streams = put csid st p.streams })
apply (reject code) p = (failure, fail code p)
apply (accept c) p = commit c p

pub decode_one : Parser → DecodeResult × Parser
decode_one p = apply (inspect (view p) p.buffer) p

after_round : (Parser → Parser) → DecodeResult × Parser → Parser
after_round again (consumed, p) = again p
after_round again (insufficient_data, p) = p
after_round again (failure, p) = p

-- for (;;) { ... }: at most `fuel` rounds.
pub run : ℕ → Parser → Parser
unfolding after_round
run zero p = p
run (suc fuel) p = after_round (run fuel) (decode_one p)

pub record ChunkDecoder : Type 0 where
  pub parser : Parser
  pub bytes_received : ℕ
  pub bytes_at_last_ack : ℕ

-- Every round that goes on takes a byte at least, so one round more than there are bytes is enough.
pub feed : List ℕ → Parser → Parser
feed bytes p =
    let p' : Parser = record p { buffer = p.buffer ++ bytes } in run (suc (length p'.buffer)) p'

is_empty : List ℕ → Bool
is_empty [] = true
is_empty (b ∷ bs) = false

pub on_bytes_received : List ℕ → ChunkDecoder → ChunkDecoder
unfolding is_empty
on_bytes_received bytes d = if d.parser.failed || is_empty bytes then d else record d {
  parser = feed bytes d.parser;
  bytes_received = add64 d.bytes_received (length bytes);
}

pub acknowledgement_due : ChunkDecoder → Bool
acknowledgement_due d =
    if d.parser.window_ack_size == 0
    then false
    else leb d.parser.window_ack_size (sub64 d.bytes_received d.bytes_at_last_ack)

pub mark_acknowledged : ChunkDecoder → ChunkDecoder
mark_acknowledged d = record d { bytes_at_last_ack = d.bytes_received }
