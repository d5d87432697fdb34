-- ===== src/Amf0/Encoder.antt =====
-- src/protocol/amf0/amf0_encoder.cpp. A function returns the bytes that it appends to `out`.
use rtmp_core.Base.{ℕ, suc, ◌/◌, ◌%◌, ◌^◌, List, [], ◌∷◌, ◌++◌, length, leb, if◌then◌else◌}
use rtmp_core.Core.ByteOrder.{write_u16_be, write_u32_be}
use rtmp_core.Amf0.{
  Value, Items, Properties, number, boolean, string, object, null, undefined, ecma_array,
  strict_array, date, nil, cons, end, property,
}

-- `(bits >> shift) & 0xFF` for shift = 56, 48, ..., 0.
unfoldable pub f64_bytes : ℕ → List ℕ
f64_bytes bits =
    (bits / 2 ^ 56 % 256)
    ∷ (bits / 2 ^ 48 % 256)
    ∷ (bits / 2 ^ 40 % 256)
    ∷ (bits / 2 ^ 32 % 256)
    ∷ (bits / 2 ^ 24 % 256)
    ∷ (bits / 2 ^ 16 % 256)
    ∷ (bits / 2 ^ 8 % 256)
    ∷ (bits % 256)
    ∷ []

unfoldable pub string_body : List ℕ → List ℕ
string_body s =
    (if leb (length s) 0xFFFF then write_u16_be (length s) else write_u32_be (length s % 2 ^ 32))
    ++ s

unfoldable pub property_name : List ℕ → List ℕ
property_name name = write_u16_be (length name % 2 ^ 16) ++ name

abbrev pub size_items : Items → ℕ
size_items nil = 0
size_items (cons v vs) = suc (size_items vs)

abbrev pub size_properties : Properties → ℕ
size_properties end = 0
size_properties (property name v ps) = suc (size_properties ps)

unfoldable pub string_marker : List ℕ → ℕ
string_marker s = if leb (length s) 0xFFFF then 0x02 else 0x0C

unfoldable mutual
  unfolding f64_bytes string_body property_name string_marker

  pub encode : Value → List ℕ
  encode (number bits) = 0x00 ∷ f64_bytes bits
  encode (boolean b) = 0x01 ∷ (if b then 1 else 0) ∷ []
  encode (string s) = string_marker s ∷ string_body s
  encode (object ps) = 0x03 ∷ encode_properties ps
  encode null = 0x05 ∷ []
  encode undefined = 0x06 ∷ []
  encode (ecma_array ps) =
      0x08 ∷ (write_u32_be (size_properties ps % 2 ^ 32) ++ encode_properties ps)
  encode (strict_array vs) = 0x0A ∷ (write_u32_be (size_items vs % 2 ^ 32) ++ encode_items vs)
  encode (date bits timezone) = 0x0B ∷ (f64_bytes bits ++ write_u16_be timezone)

  pub encode_items : Items → List ℕ
  encode_items nil = []
  encode_items (cons v vs) = encode v ++ encode_items vs

  pub encode_properties : Properties → List ℕ
  encode_properties end = write_u16_be 0 ++ (0x09 ∷ [])
  encode_properties (property name v ps) = property_name name ++ (encode v ++ encode_properties ps)
