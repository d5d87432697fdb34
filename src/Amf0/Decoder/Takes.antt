-- ===== src/Amf0/Decoder/Takes.antt =====
-- How much of the span the decoders of src/protocol/amf0/amf0_decoder.cpp take.
use rtmp_core.Base.{
  ℕ, zero, suc, ◌+◌, ◌≤◌, ◌≡◌, refl, sym, ap, ◌∙◌, Bool, true, false, List, [], ◌∷◌, ◌++◌, arith,
  length, length-append, length-drop, take, drop, leb, leb→le, ◌==◌, if◌then◌else◌,
}
use rtmp_core.Core.Error.{Error}
use rtmp_core.Core.Result.{Result, ok, err, ◌>>=◌, ◌>>◌, guard}
use rtmp_core.Core.ByteOrder.{byte_at, read_u16_be, read_u32_be}
use rtmp_core.Amf0.{Value, Properties, object, ecma_array}
use rtmp_core.Amf0.Decoder.{
  Decode, decode_bytes, decode_items, decode_end, decode_properties_loop, decode_properties,
  decode_strict_array, decode_marked, decode_value, max_properties, max_nesting_depth,
  decode_boolean, decode_number, decode_string, decode_long_string, decode_date, decode_all_loop,
  decode_all, malformed,
}

-- The rest after a value is shorter than the span; after a part, at most as long.
abbrev pub Takes : {A : Type 0} → ℕ → List ℕ → Result (A × List ℕ) → Type 0
Takes n xs (ok (a, rest)) = length rest + n ≤ length xs
Takes n xs (err e) = Unit {0}

loosen :
    {A : Type 0} (n : ℕ) (xs ys : List ℕ) (r : Result (A × List ℕ))
    → length ys ≤ length xs
    → Takes n ys r
    → Takes n xs r
loosen n xs ys (ok (a, rest)) le h = omega (arith, h)
loosen n xs ys (err e) le h = tt

weaken : {A : Type 0} (xs : List ℕ) (r : Result (A × List ℕ)) → Takes 1 xs r → Takes 0 xs r
weaken xs (ok (a, rest)) h = omega (arith, h)
weaken xs (err e) h = tt

-- A chain takes what its first step takes, and more.
then-Takes :
    {A B : Type 0} (xs : List ℕ) (r : Result (A × List ℕ)) (f : A × List ℕ → Result (B × List ℕ))
    → Takes 0 xs r
    → ((a : A) (ys : List ℕ) → Takes 0 ys (f (a, ys)))
    → Takes 0 xs (r >>= f)
then-Takes xs (ok (a, ys)) f h k = loosen 0 xs ys (f (a, ys)) (omega (arith, h)) (k a ys)
then-Takes xs (err e) f h k = tt

guard-Takes :
    {A : Type 0} (n : ℕ) (xs : List ℕ) (b : Bool) (e : Error) (r : Result (A × List ℕ))
    → (b ≡ true → Takes n xs r)
    → Takes n xs (guard b e >> r)
guard-Takes n xs true e r h = h refl
guard-Takes n xs false e r h = tt

decode_bytes-Takes : (len : ℕ) (xs : List ℕ) → Takes 0 xs (decode_bytes len xs)
unfolding decode_bytes
decode_bytes-Takes len xs =
    guard-Takes 0 xs (leb len (length xs)) malformed (ok (take len xs, drop len xs))
      (λ h. omega (arith, length-drop len xs))

decode_number-Takes : (xs : List ℕ) → Takes 0 xs (decode_number xs)
unfolding decode_number
decode_number-Takes xs = ground (arith, length-drop 8 xs)

decode_boolean-Takes : (xs : List ℕ) → Takes 0 xs (decode_boolean xs)
unfolding decode_boolean
decode_boolean-Takes xs = ground (arith, length-drop 1 xs)

decode_date-Takes : (xs : List ℕ) → Takes 0 xs (decode_date xs)
unfolding decode_date
decode_date-Takes xs = ground (arith, length-drop 10 xs)

decode_string-Takes : (xs : List ℕ) → Takes 0 xs (decode_string xs)
unfolding decode_string decode_bytes
decode_string-Takes xs =
    ground (arith, length-drop 2 xs, length-drop (read_u16_be xs 0) (drop 2 xs))

decode_long_string-Takes : (xs : List ℕ) → Takes 0 xs (decode_long_string xs)
unfolding decode_long_string decode_bytes
decode_long_string-Takes xs =
    ground (arith, length-drop 4 xs, length-drop (read_u32_be xs 0) (drop 4 xs))

split-Takes :
    {A : Type 0} (n : ℕ) (xs : List ℕ) (b : Bool) (r q : Result (A × List ℕ))
    → Takes n xs r
    → Takes n xs q
    → Takes n xs (if b then r else q)
split-Takes n xs true r q h k = h
split-Takes n xs false r q h k = k

tighten :
    {A : Type 0} (xs : List ℕ) (r : Result (A × List ℕ))
    → 1 ≤ length xs
    → Takes 0 (drop 1 xs) r
    → Takes 1 xs r
tighten xs (ok (a, rest)) le h = omega (arith, h, length-drop 1 xs)
tighten xs (err e) le h = tt

module _ (inner : Decode Value) (inner_takes : (xs : List ℕ) → Takes 1 xs (inner xs)) where
  decode_items-Takes : (count : ℕ) (xs : List ℕ) → Takes 0 xs (decode_items inner count xs)
  unfolding decode_items
  decode_items-Takes zero xs = omega arith
  decode_items-Takes (suc count) xs =
      then-Takes xs (inner xs) _ (weaken xs (inner xs) (inner_takes xs)) (λ v ys.
        then-Takes ys (decode_items inner count ys) _ (decode_items-Takes count ys)
          (λ vs zs. omega arith))

  decode_end-Takes : (xs : List ℕ) → Takes 0 xs (decode_end inner xs)
  unfolding decode_end
  decode_end-Takes xs = ground (arith, length-drop 3 xs)

  decode_properties_loop-Takes :
      (fuel : ℕ) (xs : List ℕ) → Takes 0 xs (decode_properties_loop inner fuel xs)
  unfolding decode_properties_loop
  decode_properties_loop-Takes zero xs = tt
  decode_properties_loop-Takes (suc fuel) xs =
      guard-Takes 0 xs (leb 2 (length xs)) malformed _ (λ room.
        split-Takes 0 xs (read_u16_be xs 0 == 0) _ _ (decode_end-Takes xs) (
          loosen 0 xs (drop 2 xs) _ (omega (arith, length-drop 2 xs)) (
            then-Takes (drop 2 xs) (decode_bytes (read_u16_be xs 0) (drop 2 xs)) _
              (decode_bytes-Takes (read_u16_be xs 0) (drop 2 xs))
              (λ name ys.
                then-Takes ys (inner ys) _ (weaken ys (inner ys) (inner_takes ys)) (λ v zs.
                  then-Takes zs (decode_properties_loop inner fuel zs) _
                    (decode_properties_loop-Takes fuel zs) (λ ps ws. omega arith))))))

  decode_properties-Takes :
      (levels fuel : ℕ) (xs : List ℕ) → Takes 0 xs (decode_properties levels inner fuel xs)
  unfolding decode_properties
  decode_properties-Takes zero fuel xs = tt
  decode_properties-Takes (suc levels) fuel xs = decode_properties_loop-Takes fuel xs

  object-Takes :
      (levels : ℕ) (f : Properties → Value) (xs : List ℕ)
      → Takes 0 xs (decode_properties levels inner max_properties xs >>= λ p. ok (f p.0, p.1))
  object-Takes levels f xs =
      then-Takes xs (decode_properties levels inner max_properties xs) _
        (decode_properties-Takes levels max_properties xs) (λ ps ys. omega arith)

  decode_strict_array-Takes : (xs : List ℕ) → Takes 0 xs (decode_strict_array inner xs)
  decode_strict_array-Takes xs =
      let n = read_u32_be xs 0 in
      guard-Takes 0 xs (leb 4 (length xs)) malformed _ (λ room.
        guard-Takes 0 xs (leb n (length (drop 4 xs))) malformed _ (λ counted.
          loosen 0 xs (drop 4 xs) _ (omega (arith, length-drop 4 xs)) (
            then-Takes (drop 4 xs) (decode_items inner n (drop 4 xs)) _
              (decode_items-Takes n (drop 4 xs)) (λ vs ys. omega arith))))

  decode_marked-Takes :
      (levels marker : ℕ) (xs : List ℕ) → Takes 0 xs (decode_marked levels inner marker xs)
  unfolding decode_marked
  decode_marked-Takes levels marker xs =
      split-Takes 0 xs (marker == 0x00) _ _ (decode_number-Takes xs) (
        split-Takes 0 xs (marker == 0x01) _ _ (decode_boolean-Takes xs) (
          split-Takes 0 xs (marker == 0x02) _ _ (decode_string-Takes xs) (
            split-Takes 0 xs (marker == 0x0C) _ _ (decode_long_string-Takes xs) (
              split-Takes 0 xs (marker == 0x03) _ _ (object-Takes levels object xs) (
                split-Takes 0 xs (marker == 0x08) _ _
                  (guard-Takes 0 xs (leb 4 (length xs)) malformed _ (λ room.
                    loosen 0 xs (drop 4 xs) _ (omega (arith, length-drop 4 xs))
                      (object-Takes levels ecma_array (drop 4 xs))))
                  (split-Takes 0 xs (marker == 0x0A) _ _ (decode_strict_array-Takes xs) (
                    split-Takes 0 xs (marker == 0x0B) _ _ (decode_date-Takes xs) (
                      split-Takes 0 xs (marker == 0x05) _ _ (omega arith)
                        (split-Takes 0 xs (marker == 0x06) _ _ (omega arith) tt)))))))))

-- Whatever bytes are decoded and however many levels of nesting are left, a value that is decoded
-- leaves at least one byte less than there was.
pub decode_value-Takes : (levels : ℕ) (xs : List ℕ) → Takes 1 xs (decode_value levels xs)
unfolding decode_value
decode_value-Takes zero xs = tt
decode_value-Takes (suc levels) xs = guard-Takes 1 xs (leb 1 (length xs)) malformed _ (λ room.
    tighten xs (decode_marked levels (decode_value levels) (byte_at xs 0) (drop 1 xs))
      (leb→le 1 (length xs) room)
      (decode_marked-Takes (decode_value levels) (decode_value-Takes levels) levels (byte_at xs 0)
        (drop 1 xs)))

decode_all_loop_same :
    (m n : ℕ) (xs : List ℕ)
    → length xs ≤ m
    → length xs ≤ n
    → decode_all_loop m xs ≡ decode_all_loop n xs
unfolding decode_all_loop
decode_all_loop_same m n [] hm hn = refl
decode_all_loop_same zero n (x ∷ xs) hm hn = absurd (omega arith)
decode_all_loop_same (suc m) zero (x ∷ xs) hm hn = absurd (omega arith)
decode_all_loop_same (suc m) (suc n) (x ∷ xs) hm hn =
    go (decode_all_loop_same m n) (decode_value (suc max_nesting_depth) (x ∷ xs))
      (decode_value-Takes (suc max_nesting_depth) (x ∷ xs))
  where
    go :
        ((ys : List ℕ)
          → length ys ≤ m
          → length ys ≤ n
          → decode_all_loop m ys ≡ decode_all_loop n ys)
        → (r : Result (Value × List ℕ)) → Takes 1 (x ∷ xs) r
        → (r >>= λ p. decode_all_loop m p.1 >>= λ vs. ok (p.0 ∷ vs))
          ≡ (r >>= λ p. decode_all_loop n p.1 >>= λ vs. ok (p.0 ∷ vs))
    go ih (ok (v, rest)) h =
        ap (λ (q : Result (List Value)). q >>= λ vs. ok (v ∷ vs))
          (ih rest (omega (arith, h)) (omega (arith, h)))
    go ih (err e) h = refl

-- Any fuel from the number of the bytes on gives the same result.
pub decode_all_fuel :
    (fuel : ℕ) (xs : List ℕ) → length xs ≤ fuel → decode_all_loop fuel xs ≡ decode_all xs
unfolding decode_all
decode_all_fuel fuel xs h = decode_all_loop_same fuel (length xs) xs h (omega arith)

pub decode_all-nil : decode_all [] ≡ ok []
unfolding decode_all decode_all_loop
decode_all-nil = refl

-- One value in front of others.
pub decode_all-cons :
    (xs rest : List ℕ) (v : Value) (vs : List Value)
    → 1 ≤ length xs
    → decode_value (suc max_nesting_depth) (xs ++ rest) ≡ ok (v, rest)
    → decode_all rest ≡ ok vs
    → decode_all (xs ++ rest) ≡ ok (v ∷ vs)
decode_all-cons [] rest v vs pos e e' = absurd (omega arith)
decode_all-cons (x ∷ xs) rest v vs pos e e' =
    sym (decode_all_fuel (suc (length (xs ++ rest))) (x ∷ (xs ++ rest)) (omega arith)) ∙ step
  where
    fuel : decode_all_loop (length (xs ++ rest)) rest ≡ ok vs
    fuel = decode_all_fuel (length (xs ++ rest)) rest (omega (arith, length-append xs rest)) ∙ e'

    step : decode_all_loop (suc (length (xs ++ rest))) (x ∷ (xs ++ rest)) ≡ ok (v ∷ vs)
    step = unfold decode_all_loop in rw (e, fuel) refl
