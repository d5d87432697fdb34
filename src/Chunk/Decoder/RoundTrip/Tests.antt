-- ===== src/Chunk/Decoder/RoundTrip/Tests.antt =====
-- Messages of more than one chunk, with and without an extended timestamp
-- (src/protocol/chunk/chunk_encoder.cpp, src/protocol/chunk/chunk_decoder.cpp).
use rtmp_core.Base.{ℕ, ◌≡◌, refl, List, [], ◌∷◌, arith, inr, take, drop}
use mathlib.Core.List.{flatten}
use rtmp_core.Chunk.{RtmpMessage}
use rtmp_core.Chunk.Encoder.{
  encode_message_fmt0, write_basic_header, write_full_header, write_pieces, write_rest,
}
use rtmp_core.Core.ByteOrder.{write_u24_be, write_u32_le, write_u32_be}
use rtmp_core.Chunk.Decoder.{Parser, ChunkDecoder, initial, feed}
use rtmp_core.Chunk.Decoder.Inspect.{Limits, is_continuation}
use rtmp_core.Chunk.Decoder.Streams.{new_stream, put, find}
use rtmp_core.Chunk.Decoder.Fragments.Cut.{receive_all}
use rtmp_core.Chunk.Decoder.RoundTrip.Headers.{OnWire}
use rtmp_core.Chunk.Decoder.RoundTrip.Commit.{received}
use rtmp_core.Chunk.Decoder.RoundTrip.Messages.{feed-encode_message_fmt0}
use rtmp_core.Chunk.Decoder.RoundTrip.Sequences.{
  Open, AllFit, encode_all, delivered_all, receive_all-encode_all,
}

abbrev limits : Limits
limits = record {
  max_chunk_streams = 64;
  max_buffered_payload_bytes = 20971520;
  max_chunk_size = 0xFFFFFF;
}

-- Chunks of four bytes.
abbrev parser : Parser
parser = let p : Parser = initial 10485760 limits in record p { input_chunk_size = 4 }

abbrev decoder : ChunkDecoder
decoder = record { parser = parser; bytes_received = 0; bytes_at_last_ack = 0 }

abbrev audio : RtmpMessage
audio = record {
  chunk_stream_id = 4;
  message_stream_id = 1;
  message_type_id = 8;
  timestamp = 20;
  payload = 0xAF ∷ 1 ∷ 2 ∷ 3 ∷ 4 ∷ 5 ∷ [];
}

abbrev video : RtmpMessage
video = record {
  chunk_stream_id = 70;
  message_stream_id = 1;
  message_type_id = 9;
  timestamp = 0x1000005;
  payload = 0x17 ∷ 1 ∷ 2 ∷ 3 ∷ 4 ∷ 5 ∷ 6 ∷ 7 ∷ 8 ∷ [];
}

audio-OnWire : OnWire audio
audio-OnWire = record {
  csid_low = omega arith;
  csid_high = omega arith;
  short = omega arith;
  timed = omega arith;
  streamed = omega arith;
}

video-OnWire : OnWire video
video-OnWire = record {
  csid_low = omega arith;
  csid_high = omega arith;
  short = omega arith;
  timed = omega arith;
  streamed = omega arith;
}

parser-Open : Open parser
parser-Open = record {
  alive = refl;
  drained = refl;
  quiet = tt;
  wide = omega arith;
  chunked = omega arith;
}

both_fit : AllFit parser (audio ∷ video ∷ [])
both_fit = (
  (audio-OnWire, omega arith, omega arith, refl),
  ((video-OnWire, omega arith, omega arith, refl), tt),
)

feed-encode_message_fmt0_example : feed (encode_message_fmt0 4 video) parser ≡ received video parser
unfolding find is_continuation
feed-encode_message_fmt0_example =
    feed-encode_message_fmt0 video video-OnWire parser new_stream (record {
      alive = refl;
      drained = refl;
      known = inr (refl, refl, omega arith);
      idle = refl;
      clear = refl;
      small = omega arith;
      room = omega arith;
      wide = omega arith;
      chunked = omega arith;
      free = refl;
    })

abbrev all_bytes : List ℕ
all_bytes = flatten (encode_all 4 (audio ∷ video ∷ []))

receive_all-encode_all_example :
    ((receive_all (take 25 all_bytes ∷ drop 25 all_bytes ∷ []) decoder).parser.calls
      ≡ delivered_all (audio ∷ video ∷ []))
    × ((receive_all (take 25 all_bytes ∷ drop 25 all_bytes ∷ []) decoder).parser.buffer ≡ [])
unfolding flatten encode_message_fmt0 put write_basic_header write_full_header write_u24_be
    write_u32_le write_pieces write_rest write_u32_be
receive_all-encode_all_example =
    receive_all-encode_all (audio ∷ video ∷ []) (take 25 all_bytes ∷ drop 25 all_bytes ∷ []) decoder
      parser-Open both_fit (omega arith) refl
