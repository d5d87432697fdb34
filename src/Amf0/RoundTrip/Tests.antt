-- ===== src/Amf0/RoundTrip/Tests.antt =====
-- The round trip at concrete values (src/protocol/amf0).
use rtmp_core.Base.{List, [], ◌∷◌, ◌++◌, ◌≡◌, arith, length, true}
use rtmp_core.Core.Result.{ok}
use rtmp_core.Amf0.{
  Value, number, boolean, string, object, null, strict_array, nil, cons, end, property,
}
use rtmp_core.Amf0.Encoder.{encode}
use rtmp_core.Amf0.Decoder.{decode, decode_all, decode_value}
use rtmp_core.Amf0.Decoder.Takes.{decode_value-Takes, Takes}
use rtmp_core.Amf0.Decoder.Runs.{Runs, decode_all-Runs}
use rtmp_core.Amf0.RoundTrip.{
  decode-encode, decode_all-encode_all, encode_all, Fits, FitsItems, FitsProperties, AllFit,
}

-- {"app": "live", "n": [1.0, null]}, 1.0 by its bits.
abbrev command_object : Value
command_object = object (
    property (97 ∷ 112 ∷ 112 ∷ []) (string (108 ∷ 105 ∷ 118 ∷ 101 ∷ []))
      (property (110 ∷ []) (strict_array (cons (number 0x3FF0000000000000) (cons null nil))) end))

abbrev message : List Value
message = string (99 ∷ []) ∷ boolean true ∷ command_object ∷ []

command_object-Fits : Fits 33 command_object
unfolding Fits FitsItems FitsProperties
command_object-Fits = (
  (
    omega arith,
    omega arith,
    omega arith,
    (omega arith, omega arith, ((omega arith, (tt, tt)), omega arith), omega arith),
  ),
  omega arith,
)

message-AllFit : AllFit message
unfolding Fits
message-AllFit = (omega arith, (tt, (command_object-Fits, tt)))

decode-encode_example :
    decode (encode command_object ++ (7 ∷ []))
    ≡ ok (record { value = command_object; bytes_consumed = length (encode command_object) })
decode-encode_example = decode-encode command_object (7 ∷ []) command_object-Fits

decode_all-encode_all_example : decode_all (encode_all message) ≡ ok message
decode_all-encode_all_example = decode_all-encode_all message message-AllFit

decode_all-Runs_example : Runs (5 ∷ 1 ∷ 1 ∷ []) (decode_all (5 ∷ 1 ∷ 1 ∷ []))
decode_all-Runs_example = decode_all-Runs (5 ∷ 1 ∷ 1 ∷ [])

decode_value-Takes_example : Takes 1 (1 ∷ 1 ∷ 5 ∷ []) (decode_value 33 (1 ∷ 1 ∷ 5 ∷ []))
decode_value-Takes_example = decode_value-Takes 33 (1 ∷ 1 ∷ 5 ∷ [])
