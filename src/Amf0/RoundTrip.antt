-- ===== src/Amf0/RoundTrip.antt =====
-- What src/protocol/amf0/amf0_encoder.cpp writes, src/protocol/amf0/amf0_decoder.cpp reads back.
pub mod Tests
use rtmp_core.Base.{
  ℕ, zero, suc, ◌+◌, ◌*◌, ◌/◌, ◌%◌, ◌^◌, ◌≤◌, ◌<◌, ◌≡◌, refl, inl, inr, sym, ap, ◌∙◌, Bool, true,
  false, List, [], ◌∷◌, ◌++◌, arith, append_assoc, length, length-append, drop, leb, le→leb, lt→leb,
  leb→le, leb→lt, ◌==◌, if◌then◌else◌, Bool-cases,
}
use rtmp_core.Core.Result.{Result, ok, err, ◌>>=◌, ◌>>◌, guard}
use rtmp_core.Core.ByteOrder.{byte_at, read_u32_be, write_u16_be, write_u32_be, read-write_u32_be}
use rtmp_core.Amf0.{
  Value, Items, Properties, number, boolean, string, object, null, undefined, ecma_array,
  strict_array, date, nil, cons, end, property,
}
use rtmp_core.Amf0.Encoder.{
  f64_bytes, string_body, property_name, string_marker, size_items, size_properties, encode,
  encode_items, encode_properties,
}
use rtmp_core.Amf0.Decoder.{
  Decode, decode_items, decode_properties_loop, decode_properties, decode_marked, decode_value,
  max_properties, decode_boolean, max_nesting_depth, Decoded, decode, decode_all,
}
use rtmp_core.Amf0.Decoder.Takes.{decode_all-nil, decode_all-cons}
use rtmp_core.Amf0.Decoder.Scalars.{
  decode_number-f64_bytes, decode_date-bytes, decode_string-bytes, decode_long_string-bytes,
}
use rtmp_core.Amf0.Decoder.Marked.{
  decode_items_nil, marked_number, marked_boolean, marked_string, marked_long_string, marked_date,
  marked_null, marked_undefined, marked_object, marked_ecma_array, marked_strict_array,
  decode_items_cons, decode_properties_end, decode_properties_cons, decode_value_marker, decoded,
}

-- The values that the wire form can hold, with `levels` levels of nesting left: the numbers fit
-- their fields, a string has less than 2^32 bytes, a property name 1 to 65535, a property list less
-- than 1,000,000 entries, an array less than 2^32, and nothing is nested too deep.
mutual
  pub Fits : ℕ → Value → Type 0
  Fits zero v = ⊥
  Fits (suc levels) (number bits) = bits < 2 ^ 64
  Fits (suc levels) (boolean b) = Unit {0}
  Fits (suc levels) (string s) = length s < 2 ^ 32
  Fits (suc levels) (object ps) = FitsProperties levels ps × (size_properties ps < 1_000_000)
  Fits (suc levels) null = Unit {0}
  Fits (suc levels) undefined = Unit {0}
  Fits (suc levels) (ecma_array ps) = FitsProperties levels ps × (size_properties ps < 1_000_000)
  Fits (suc levels) (strict_array vs) = FitsItems levels vs × (size_items vs < 2 ^ 32)
  Fits (suc levels) (date bits timezone) = (bits < 2 ^ 64) × (timezone < 2 ^ 16)

  pub FitsItems : ℕ → Items → Type 0
  FitsItems levels nil = Unit {0}
  FitsItems levels (cons v vs) = Fits levels v × FitsItems levels vs

  pub FitsProperties : ℕ → Properties → Type 0
  FitsProperties levels end = 1 ≤ levels
  FitsProperties levels (property name v ps) =
      (1 ≤ length name) × (length name ≤ 0xFFFF) × Fits levels v × FitsProperties levels ps

encode_pos : (v : Value) → 1 ≤ length (encode v)
unfolding encode
encode_pos (number bits) = omega arith
encode_pos (boolean b) = omega arith
encode_pos (string s) = omega arith
encode_pos (object ps) = omega arith
encode_pos null = omega arith
encode_pos undefined = omega arith
encode_pos (ecma_array ps) = omega arith
encode_pos (strict_array vs) = omega arith
encode_pos (date bits timezone) = omega arith

size_items-le : (vs : Items) → size_items vs ≤ length (encode_items vs)
unfolding encode_items
size_items-le nil = omega arith
size_items-le (cons v vs) =
    omega (arith, size_items-le vs, encode_pos v, length-append (encode v) (encode_items vs))

FitsProperties-pos : (levels : ℕ) (ps : Properties) → FitsProperties levels ps → 1 ≤ levels
unfolding FitsProperties Fits
FitsProperties-pos levels end h = h
FitsProperties-pos zero (property name v ps) (lo, hi, h, k) = absurd h
FitsProperties-pos (suc levels) (property name v ps) h = omega arith

decode_string-encode :
    (levels : ℕ) (s rest : List ℕ)
    → length s < 2 ^ 32
    → decode_value (suc levels) (string_marker s ∷ (string_body s ++ rest)) ≡ ok (string s, rest)
unfolding string_marker
decode_string-encode levels s rest h = elim (Bool-cases (leb (length s) 0xFFFF)) [
  | inl short ↦
      rw
        (
          short,
          decode_value_marker levels 0x02 (string_body s ++ rest),
          marked_string levels (decode_value levels) (string_body s ++ rest),
        )
        (decode_string-bytes s rest (leb→le (length s) 0xFFFF short))
  | inr long ↦
      rw
        (
          long,
          decode_value_marker levels 0x0C (string_body s ++ rest),
          marked_long_string levels (decode_value levels) (string_body s ++ rest),
        )
        (decode_long_string-bytes s rest (leb→lt (length s) 0xFFFF long) h)
]

mutual
  unfolding encode Fits

  value-encode :
      (v : Value) (levels : ℕ) (rest : List ℕ)
      → Fits levels v
      → decode_value levels (encode v ++ rest) ≡ ok (v, rest)
  value-encode v zero rest h = absurd h
  value-encode (number bits) (suc n) rest h =
      decode_value_marker n 0x00 (f64_bytes bits ++ rest)
      ∙ marked_number n (decode_value n) (f64_bytes bits ++ rest)
      ∙ decode_number-f64_bytes bits rest h
  value-encode (boolean b) (suc n) rest h =
      decode_value_marker n 0x01 ((if b then 1 else 0) ∷ rest)
      ∙ marked_boolean n (decode_value n) b rest
  value-encode (string s) (suc n) rest h = decode_string-encode n s rest h
  value-encode (object ps) (suc n) rest (h, size) =
      decode_value_marker n 0x03 (encode_properties ps ++ rest)
      ∙ marked_object n (decode_value n) (encode_properties ps ++ rest) rest ps
          (FitsProperties-pos n ps h) (properties-encode ps n max_properties rest h size)
  value-encode null (suc n) rest h =
      decode_value_marker n 0x05 rest ∙ marked_null n (decode_value n) rest
  value-encode undefined (suc n) rest h =
      decode_value_marker n 0x06 rest ∙ marked_undefined n (decode_value n) rest
  value-encode (ecma_array ps) (suc n) rest (h, size) =
      let count = size_properties ps % 2 ^ 32 in
      let body = encode_properties ps ++ rest in
      rw (append_assoc (write_u32_be count) (encode_properties ps) rest) (
        decode_value_marker n 0x08 (write_u32_be count ++ body)
        ∙ marked_ecma_array n (decode_value n) count body rest ps (FitsProperties-pos n ps h)
            (properties-encode ps n max_properties rest h size))
  value-encode (strict_array vs) (suc n) rest (h, size) =
      let body = encode_items vs ++ rest in
      let small : size_items vs % 2 ^ 32 ≡ size_items vs = omega (arith, size) in
      rw (small, append_assoc (write_u32_be (size_items vs)) (encode_items vs) rest)
        (decode_value_marker n 0x0A (write_u32_be (size_items vs) ++ body)
          ∙ marked_strict_array n (decode_value n) (size_items vs) body rest vs size
              (omega (arith, size_items-le vs, length-append (encode_items vs) rest))
              (items-encode vs n rest h))
  value-encode (date bits timezone) (suc n) rest (h, k) =
      decode_value_marker n 0x0B ((f64_bytes bits ++ write_u16_be timezone) ++ rest)
      ∙ marked_date n (decode_value n) ((f64_bytes bits ++ write_u16_be timezone) ++ rest)
      ∙ decode_date-bytes bits timezone rest h k

  items-encode :
      (vs : Items) (levels : ℕ) (rest : List ℕ)
      → FitsItems levels vs
      → decode_items (decode_value levels) (size_items vs) (encode_items vs ++ rest) ≡ ok (vs, rest)
  items-encode nil n rest h = decode_items_nil (decode_value n) rest
  items-encode (cons v vs) n rest (h, k) = rw (append_assoc (encode v) (encode_items vs) rest) (
      decode_items_cons (decode_value n) (size_items vs) (encode v ++ (encode_items vs ++ rest))
        (encode_items vs ++ rest) rest v vs (value-encode v n (encode_items vs ++ rest) h)
        (items-encode vs n rest k))

  properties-encode :
      (ps : Properties) (levels fuel : ℕ) (rest : List ℕ)
      → FitsProperties levels ps
      → size_properties ps < fuel
      → decode_properties_loop (decode_value levels) fuel (encode_properties ps ++ rest)
        ≡ ok (ps, rest)
  properties-encode ps n zero rest h size = absurd (omega arith)
  properties-encode end n (suc fuel) rest h size = decode_properties_end (decode_value n) fuel rest
  properties-encode (property name v ps) n (suc fuel) rest (lo, hi, h, k) size =
      let tail_ = encode_properties ps ++ rest in
      rw
        (
          append_assoc (property_name name) (encode v ++ encode_properties ps) rest,
          append_assoc (encode v) (encode_properties ps) rest,
        )
        (decode_properties_cons (decode_value n) fuel name (encode v ++ tail_) tail_ rest v ps lo hi
          (value-encode v n tail_ h) (properties-encode ps n fuel rest k (omega arith)))

-- A value that fits the wire form, nested at most 32 deep, is read back from what was written for
-- it, whatever bytes follow, and what follows is left; `decode` reports the length of what was
-- written as consumed.
pub decode-encode :
    (v : Value) (rest : List ℕ)
    → Fits (suc max_nesting_depth) v
    → decode (encode v ++ rest) ≡ ok (record { value = v; bytes_consumed = length (encode v) })
decode-encode v rest h = decoded (encode v) v rest (value-encode v (suc max_nesting_depth) rest h)

abbrev pub encode_all : List Value → List ℕ
encode_all [] = []
encode_all (v ∷ vs) = encode v ++ encode_all vs

abbrev pub AllFit : List Value → Type 0
AllFit [] = Unit {0}
AllFit (v ∷ vs) = Fits (suc max_nesting_depth) v × AllFit vs

-- The values of a command message, written one after the other, are read back as they were.
pub decode_all-encode_all : (vs : List Value) → AllFit vs → decode_all (encode_all vs) ≡ ok vs
decode_all-encode_all [] h = decode_all-nil
decode_all-encode_all (v ∷ vs) (h, k) =
    decode_all-cons (encode v) (encode_all vs) v vs (encode_pos v)
      (value-encode v (suc max_nesting_depth) (encode_all vs) h) (decode_all-encode_all vs k)
