-- ===== src/Amf0/Decoder/Scalars.antt =====
-- The decoders of src/protocol/amf0/amf0_decoder.cpp read back what the encoder writes for the values
-- that hold no others.
use rtmp_core.Base.{
  ℕ, ◌^◌, ◌≤◌, ◌<◌, ◌≡◌, List, ◌++◌, arith, length, length-append, take_length-append,
  drop_length-append, le→leb, lt→leb,
}
use rtmp_core.Core.Result.{ok}
use rtmp_core.Core.ByteOrder.{
  read_u16_be, write_u16_be, write_u32_be, read-write_u16_be, read-write_u32_be,
}
use rtmp_core.Amf0.{number, string, date}
use rtmp_core.Amf0.Encoder.{f64_bytes, string_body}
use rtmp_core.Amf0.Decoder.{
  shift_in, decode_bytes, decode_number, decode_string, decode_long_string, decode_date,
  read_f64_be,
}

read_f64_be-f64_bytes :
    (bits : ℕ) (rest : List ℕ) → bits < 2 ^ 64 → read_f64_be (f64_bytes bits ++ rest) ≡ bits
unfolding shift_in f64_bytes
read_f64_be-f64_bytes bits rest h = omega arith

pub decode_number-f64_bytes :
    (bits : ℕ) (rest : List ℕ)
    → bits < 2 ^ 64
    → decode_number (f64_bytes bits ++ rest) ≡ ok (number bits, rest)
unfolding decode_number f64_bytes
decode_number-f64_bytes bits rest h = ground (arith, read_f64_be-f64_bytes bits rest h)

pub decode_date-bytes :
    (bits timezone : ℕ) (rest : List ℕ)
    → bits < 2 ^ 64
    → timezone < 2 ^ 16
    → decode_date ((f64_bytes bits ++ write_u16_be timezone) ++ rest)
      ≡ ok (date bits timezone, rest)
unfolding decode_date f64_bytes read_u16_be write_u16_be
decode_date-bytes bits timezone rest h k =
    ground (arith, read_f64_be-f64_bytes bits (write_u16_be timezone ++ rest) h)

pub decode_bytes-append : (s rest : List ℕ) → decode_bytes (length s) (s ++ rest) ≡ ok (s, rest)
unfolding decode_bytes
decode_bytes-append s rest =
    ground (arith, length-append s rest, take_length-append s rest, drop_length-append s rest)

pub decode_string-bytes :
    (s rest : List ℕ)
    → length s ≤ 0xFFFF
    → decode_string (string_body s ++ rest) ≡ ok (string s, rest)
unfolding decode_string string_body write_u16_be
decode_string-bytes s rest h =
    rw (le→leb (length s) 0xFFFF h)
      (ground (arith, read-write_u16_be (length s) (s ++ rest), decode_bytes-append s rest))

pub decode_long_string-bytes :
    (s rest : List ℕ)
    → 0xFFFF < length s
    → length s < 2 ^ 32
    → decode_long_string (string_body s ++ rest) ≡ ok (string s, rest)
unfolding decode_long_string string_body write_u32_be
decode_long_string-bytes s rest h k =
    rw (lt→leb (length s) 0xFFFF h)
      (ground (arith, read-write_u32_be (length s) (s ++ rest), decode_bytes-append s rest))
