-- ===== src/Amf0/Decoder.antt =====
-- src/protocol/amf0/amf0_decoder.cpp. A function is given the span from its offset on, and returns
-- what is left of it, so that `offset + needed > data.size()` is `length data < needed` here. The
-- depth is counted downwards: `levels` is kMaxNestingDepth + 1 less the depth.
pub mod Scalars
pub mod Marked
pub mod Runs
pub mod Takes
use rtmp_core.Base.{
  ℕ, zero, suc, ◌+◌, ◌-◌, ◌*◌, ◌%◌, ◌^◌, Bool, true, false, not, List, [], ◌∷◌, length, take, drop,
  leb, ltb, ◌==◌, if◌then◌else◌,
}
use rtmp_core.Core.Error.{Error, malformed_amf, protocol}
use rtmp_core.Core.Result.{Result, ok, err, ◌>>=◌, ◌>>◌, guard}
use rtmp_core.Core.ByteOrder.{byte_at, read_u16_be, read_u32_be}
use rtmp_core.Amf0.{
  Value, Items, Properties, number, boolean, string, object, null, undefined, ecma_array,
  strict_array, date, nil, cons, end, property,
}

abbrev pub max_nesting_depth : ℕ
max_nesting_depth = 32

abbrev pub max_properties : ℕ
max_properties = 1_000_000

abbrev pub malformed : Error
malformed = record { code = malformed_amf; category = protocol }

abbrev pub require : List ℕ → ℕ → Result (Unit {0})
require data_ needed = guard (leb needed (length data_)) malformed

-- `bits = (bits << 8) | data[offset + i]`, for `count` bytes.
pub shift_in : ℕ → ℕ → List ℕ → ℕ
shift_in zero bits xs = bits
shift_in (suc count) bits xs = shift_in count (bits * 2 ^ 8 % 2 ^ 64 + byte_at xs 0) (drop 1 xs)

abbrev pub read_f64_be : List ℕ → ℕ
read_f64_be xs = shift_in 8 0 xs

abbrev pub Decode : Type 0 → Type 0
Decode A = List ℕ → Result (A × List ℕ)

pub decode_bytes : ℕ → Decode (List ℕ)
decode_bytes len xs = do require xs len; ok (take len xs, drop len xs)

pub decode_number : Decode Value
decode_number xs = do require xs 8; ok (number (read_f64_be xs), drop 8 xs)

pub decode_boolean : Decode Value
decode_boolean xs = do require xs 1; ok (boolean (not (byte_at xs 0 == 0)), drop 1 xs)

pub decode_string : Decode Value
decode_string xs = do
  require xs 2
  (s, rest) ← decode_bytes (read_u16_be xs 0) (drop 2 xs)
  ok (string s, rest)

pub decode_long_string : Decode Value
decode_long_string xs = do
  require xs 4
  (s, rest) ← decode_bytes (read_u32_be xs 0) (drop 4 xs)
  ok (string s, rest)

pub decode_date : Decode Value
decode_date xs = do require xs 10; ok (date (read_f64_be xs) (read_u16_be xs 8), drop 10 xs)

-- The two loops take the decoder of the values inside.
module _ (decode_inner : Decode Value) where
  pub decode_items : ℕ → Decode Items
  decode_items zero xs = ok (nil, xs)
  decode_items (suc count) xs = do
    (v, rest) ← decode_inner xs
    (vs, rest') ← decode_items count rest
    ok (cons v vs, rest')

  -- An empty name ends the list, if the Object-End marker follows.
  pub decode_end : Decode Properties
  decode_end xs = do require xs 3; if byte_at xs 2 == 9 then ok (end, drop 3 xs) else err malformed

  pub decode_properties_loop : ℕ → Decode Properties
  decode_properties_loop zero xs = err malformed
  decode_properties_loop (suc fuel) xs =
      let name_len = read_u16_be xs 0 in
      let more = (do
        (name, rest) ← decode_bytes name_len (drop 2 xs)
        (v, rest') ← decode_inner rest
        (ps, rest'') ← decode_properties_loop fuel rest'
        ok (property name v ps, rest'')) in
      do require xs 2; if name_len == 0 then decode_end xs else more

-- The count is held against the bytes that are left before anything is made room for.
abbrev decode_strict_array : Decode Value → Decode Value
decode_strict_array inner xs = do
  require xs 4
  guard (leb (read_u32_be xs 0) (length (drop 4 xs))) malformed
  (vs, rest) ← decode_items inner (read_u32_be xs 0) (drop 4 xs)
  ok (strict_array vs, rest)

-- decode_properties, at a depth that has `levels` levels left.
pub decode_properties : ℕ → Decode Value → ℕ → Decode Properties
decode_properties zero inner fuel xs = err malformed
decode_properties (suc levels) inner fuel xs = decode_properties_loop inner fuel xs

-- The switch on the marker. `inner` decodes one level deeper.
pub decode_marked : ℕ → Decode Value → ℕ → Decode Value
decode_marked levels inner marker xs =
    if marker == 0x00
    then decode_number xs
    else if marker == 0x01
    then decode_boolean xs
    else if marker == 0x02
    then decode_string xs
    else if marker == 0x0C
    then decode_long_string xs
    else if marker == 0x03
    then (do (ps, rest) ← decode_properties levels inner max_properties xs; ok (object ps, rest))
    else if marker == 0x08
    then (do
      require xs 4
      (ps, rest) ← decode_properties levels inner max_properties (drop 4 xs)
      ok (ecma_array ps, rest))
    else if marker == 0x0A
    then decode_strict_array inner xs
    else if marker == 0x0B
    then decode_date xs
    else if marker == 0x05
    then ok (null, xs)
    else if marker == 0x06
    then ok (undefined, xs)
    else err malformed

pub decode_value : ℕ → Decode Value
decode_value zero xs = err malformed
decode_value (suc levels) xs = do
  require xs 1
  decode_marked levels (decode_value levels) (byte_at xs 0) (drop 1 xs)

pub record Decoded : Type 0 where
  pub value : Value
  pub bytes_consumed : ℕ

pub decode : List ℕ → Result Decoded
decode xs = do
  (v, rest) ← decode_value (suc max_nesting_depth) xs
  ok (record { value = v; bytes_consumed = length xs - length rest })

-- `while (offset < data.size())`. Each value takes a byte at least, so one round a byte is enough.
pub decode_all_loop : ℕ → List ℕ → Result (List Value)
decode_all_loop fuel [] = ok []
decode_all_loop zero (x ∷ xs) = err malformed
decode_all_loop (suc fuel) (x ∷ xs) = do
  (v, rest) ← decode_value (suc max_nesting_depth) (x ∷ xs)
  vs ← decode_all_loop fuel rest
  ok (v ∷ vs)

pub decode_all : List ℕ → Result (List Value)
decode_all xs = decode_all_loop (length xs) xs
