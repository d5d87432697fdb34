-- ===== src/Amf0/Decoder/Marked.antt =====
-- One round of each loop of src/protocol/amf0/amf0_decoder.cpp, and the switch on the marker, where
-- what follows is known.
use rtmp_core.Base.{
  ℕ, suc, ◌-◌, ◌%◌, ◌^◌, ◌≤◌, ◌<◌, ◌≡◌, refl, Bool, true, false, List, [], ◌∷◌, ◌++◌, arith, length,
  length-append, if◌then◌else◌,
}
use rtmp_core.Core.Result.{ok}
use rtmp_core.Core.ByteOrder.{
  read_u16_be, write_u16_be, write_u32_be, read-write_u16_be, read-write_u32_be,
}
use rtmp_core.Amf0.{
  Value, Items, Properties, boolean, object, null, undefined, ecma_array, strict_array, nil, cons,
  end, property,
}
use rtmp_core.Amf0.Encoder.{property_name}
use rtmp_core.Amf0.Decoder.{
  Decode, decode_items, decode_end, decode_properties_loop, decode_properties, decode_marked,
  decode_value, max_properties, max_nesting_depth, decode, decode_boolean, decode_number,
  decode_string, decode_long_string, decode_date,
}
use rtmp_core.Amf0.Decoder.Scalars.{decode_bytes-append}

module _ (inner : Decode Value) where
  pub decode_items_nil : (xs : List ℕ) → decode_items inner 0 xs ≡ ok (nil, xs)
  unfolding decode_items
  decode_items_nil xs = refl

  pub decode_items_cons :
      (count : ℕ) (xs ys zs : List ℕ) (v : Value) (vs : Items)
      → inner xs ≡ ok (v, ys)
      → decode_items inner count ys ≡ ok (vs, zs)
      → decode_items inner (suc count) xs ≡ ok (cons v vs, zs)
  unfolding decode_items
  decode_items_cons count xs ys zs v vs e e' = rw (e, e') refl

  pub decode_properties_end :
      (fuel : ℕ) (rest : List ℕ)
      → decode_properties_loop inner (suc fuel) ((write_u16_be 0 ++ (0x09 ∷ [])) ++ rest)
        ≡ ok (end, rest)
  unfolding decode_properties_loop decode_end write_u16_be read_u16_be
  decode_properties_end fuel rest = ground arith

  pub decode_properties_cons :
      (fuel : ℕ) (name xs ys zs : List ℕ) (v : Value) (ps : Properties)
      → 1 ≤ length name
      → length name ≤ 0xFFFF
      → inner xs ≡ ok (v, ys)
      → decode_properties_loop inner fuel ys ≡ ok (ps, zs)
      → decode_properties_loop inner (suc fuel) (property_name name ++ xs)
        ≡ ok (property name v ps, zs)
  unfolding decode_properties_loop property_name write_u16_be
  decode_properties_cons fuel name xs ys zs v ps lo hi e e' =
      ground
        (arith, read-write_u16_be (length name % 2 ^ 16) (name ++ xs), decode_bytes-append name xs)

module _ (levels : ℕ) where
  -- After a marker, the value is decoded one level deeper.
  pub decode_value_marker :
      (marker : ℕ) (xs : List ℕ)
      → decode_value (suc levels) (marker ∷ xs)
        ≡ decode_marked levels (decode_value levels) marker xs
  unfolding decode_value
  decode_value_marker marker xs = ground arith

-- The switch, by marker.
module _ (levels : ℕ) (inner : Decode Value) where
  pub marked_number : (xs : List ℕ) → decode_marked levels inner 0x00 xs ≡ decode_number xs
  unfolding decode_marked
  marked_number xs = refl

  pub marked_boolean :
      (b : Bool) (xs : List ℕ)
      → decode_marked levels inner 0x01 ((if b then 1 else 0) ∷ xs) ≡ ok (boolean b, xs)
  unfolding decode_marked decode_boolean
  marked_boolean true xs = ground arith
  marked_boolean false xs = ground arith

  pub marked_string : (xs : List ℕ) → decode_marked levels inner 0x02 xs ≡ decode_string xs
  unfolding decode_marked
  marked_string xs = refl

  pub marked_long_string :
      (xs : List ℕ) → decode_marked levels inner 0x0C xs ≡ decode_long_string xs
  unfolding decode_marked
  marked_long_string xs = refl

  pub marked_date : (xs : List ℕ) → decode_marked levels inner 0x0B xs ≡ decode_date xs
  unfolding decode_marked
  marked_date xs = refl

  pub marked_null : (xs : List ℕ) → decode_marked levels inner 0x05 xs ≡ ok (null, xs)
  unfolding decode_marked
  marked_null xs = refl

  pub marked_undefined : (xs : List ℕ) → decode_marked levels inner 0x06 xs ≡ ok (undefined, xs)
  unfolding decode_marked
  marked_undefined xs = refl

  decode_properties_deep :
      (fuel : ℕ) (xs : List ℕ)
      → 1 ≤ levels
      → decode_properties levels inner fuel xs ≡ decode_properties_loop inner fuel xs
  unfolding decode_properties
  decode_properties_deep fuel xs h = ground arith

  pub marked_object :
      (xs rest : List ℕ) (ps : Properties)
      → 1 ≤ levels
      → decode_properties_loop inner max_properties xs ≡ ok (ps, rest)
      → decode_marked levels inner 0x03 xs ≡ ok (object ps, rest)
  unfolding decode_marked
  marked_object xs rest ps h e = rw (decode_properties_deep max_properties xs h, e) refl

  pub marked_ecma_array :
      (n : ℕ) (xs rest : List ℕ) (ps : Properties)
      → 1 ≤ levels
      → decode_properties_loop inner max_properties xs ≡ ok (ps, rest)
      → decode_marked levels inner 0x08 (write_u32_be n ++ xs) ≡ ok (ecma_array ps, rest)
  unfolding decode_marked write_u32_be
  marked_ecma_array n xs rest ps h e = ground (arith, decode_properties_deep max_properties xs h, e)

  pub marked_strict_array :
      (n : ℕ) (xs rest : List ℕ) (vs : Items)
      → n < 2 ^ 32
      → n ≤ length xs
      → decode_items inner n xs ≡ ok (vs, rest)
      → decode_marked levels inner 0x0A (write_u32_be n ++ xs) ≡ ok (strict_array vs, rest)
  unfolding decode_marked write_u32_be
  marked_strict_array n xs rest vs fits room e = ground (arith, read-write_u32_be n xs fits, e)

-- `decode` counts what `decode_value` has taken.
pub decoded :
    (xs : List ℕ) (v : Value) (rest : List ℕ)
    → decode_value (suc max_nesting_depth) (xs ++ rest) ≡ ok (v, rest)
    → decode (xs ++ rest) ≡ ok (record { value = v; bytes_consumed = length xs })
unfolding decode
decoded xs v rest e =
    let count : length (xs ++ rest) - length rest ≡ length xs =
      omega (arith, length-append xs rest) in
    rw (e, count) refl
