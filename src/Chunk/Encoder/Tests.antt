-- ===== src/Chunk/Encoder/Tests.antt =====
-- The encoder at concrete messages (src/protocol/chunk/chunk_encoder.cpp).
use rtmp_core.Base.{◌≡◌, refl, some, [], ◌∷◌, ◌++◌, arith, length}
use rtmp_core.Core.ByteOrder.{write_u24_be, write_u32_le}
use rtmp_core.Chunk.{RtmpMessage}
use rtmp_core.Chunk.Decoder.Inspect.{read_front, message_header_len}
use rtmp_core.Chunk.Encoder.{
  encode_message, encode_message_fmt0, write_basic_header, write_full_header, write_pieces,
  write_rest, header_of, remember, format_of, extended_active, extended_value_of,
  write_message_header, header_after,
}
use rtmp_core.Chunk.Encoder.BasicHeader.{read_front-write_basic_header}

abbrev audio : RtmpMessage
audio = record {
  chunk_stream_id = 4;
  message_stream_id = 1;
  message_type_id = 8;
  timestamp = 5;
  payload = 10 ∷ 11 ∷ 12 ∷ [];
}

-- A payload of three bytes in pieces of two.
fmt0 :
    encode_message_fmt0 2 audio
    ≡ 4 ∷ 0 ∷ 0 ∷ 5 ∷ 0 ∷ 0 ∷ 3 ∷ 8 ∷ 1 ∷ 0 ∷ 0 ∷ 0 ∷ 10 ∷ 11 ∷ 196 ∷ 12 ∷ []
unfolding encode_message_fmt0 write_basic_header write_full_header write_pieces write_rest
    write_u24_be write_u32_le
fmt0 = refl

-- The same message again, 0 later, needs a basic header only.
twice :
    (encode_message audio (encode_message audio (record { chunk_size = 128; streams = [] })).1).0
    ≡ 196 ∷ 10 ∷ 11 ∷ 12 ∷ []
unfolding encode_message write_basic_header write_full_header write_pieces write_rest write_u24_be
    write_u32_le header_of remember format_of extended_active extended_value_of write_message_header
    header_after
twice = refl

read_front-write_basic_header_example :
    read_front (write_basic_header 3 400 ++ (7 ∷ []))
    ≡ some (record {
      fmt = 3;
      csid = 400;
      basic_header_len = length (write_basic_header 3 400);
      message_header_len = message_header_len 3;
    })
read_front-write_basic_header_example =
    read_front-write_basic_header 3 400 (7 ∷ []) (omega arith) (omega arith) (omega arith)
      (unfold message_header_len in omega arith)
