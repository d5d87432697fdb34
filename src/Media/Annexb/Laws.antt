-- ===== src/Media/Annexb/Laws.antt =====
-- What the conversion to Annex B makes of a sample (src/media/h264/avc.cpp, src/media/hevc/hevc.cpp).
use rtmp_core.Base.{
  ℕ, zero, suc, ◌+◌, ◌-◌, ◌^◌, ◌≤◌, ◌<◌, ◌≡◌, refl, sym, ap, ◌∙◌, inl, inr, Bool, true, false, not,
  List, [], ◌∷◌, ◌++◌, append-nil, append_assoc, All, arith, length, length-append, take, drop,
  take_length-append, drop_length-append, ltb, ◌==◌, if◌then◌else◌, Bool-cases,
}
use rtmp_core.Core.Result.{err, ok}
use rtmp_core.Media.Nals.{malformed, read_be, append_nals, start_code}
use rtmp_core.Media.Nals.Laws.{write_be, read_be-write_be, length-write_be}
use rtmp_core.Media.Annexb.{append_unit, convert_nals}

-- A sample: its units, each behind its length in `width` bytes.
abbrev pub write_sample : ℕ → List (List ℕ) → List ℕ
write_sample width [] = []
write_sample width (nal ∷ nals) = write_be width (length nal) ++ (nal ++ write_sample width nals)

-- The units that stay.
abbrev pub kept : (List ℕ → Bool) → List (List ℕ) → List (List ℕ)
kept skip [] = []
kept skip (nal ∷ nals) = if skip nal then kept skip nals else nal ∷ kept skip nals

-- A byte stream of units, each behind the start code 00 00 00 01.
abbrev pub byte_stream : List (List ℕ) → List ℕ
byte_stream [] = []
byte_stream (nal ∷ nals) = 0 ∷ 0 ∷ 0 ∷ 1 ∷ (nal ++ byte_stream nals)

-- The units that a test passes.
abbrev pub only : (List ℕ → Bool) → List (List ℕ) → List (List ℕ)
only stays [] = []
only stays (nal ∷ nals) = if stays nal then nal ∷ only stays nals else only stays nals

pub append_nals-byte_stream : (nals : List (List ℕ)) → append_nals nals ≡ byte_stream nals
append_nals-byte_stream [] = refl
append_nals-byte_stream (nal ∷ nals) =
    ap (λ bs. start_code ++ (nal ++ bs)) (append_nals-byte_stream nals)

pub byte_stream-append :
    (xs ys : List (List ℕ)) → byte_stream (xs ++ ys) ≡ byte_stream xs ++ byte_stream ys
byte_stream-append [] ys = refl
byte_stream-append (nal ∷ nals) ys =
    ap (λ bs. start_code ++ (nal ++ bs)) (byte_stream-append nals ys)
    ∙ ap (◌++◌ start_code) (sym (append_assoc nal (byte_stream nals) (byte_stream ys)))

pub kept-only :
    (skip stays : List ℕ → Bool)
    → ((nal : List ℕ) → skip nal ≡ not (stays nal))
    → (nals : List (List ℕ)) → kept skip nals ≡ only stays nals
kept-only skip stays e [] = refl
kept-only skip stays e (nal ∷ nals) = elim (Bool-cases (stays nal)) [
  | inl yes' ↦
      let skipped : skip nal ≡ false = rw (e nal, yes') refl in
      rw (skipped, yes') (ap (◌∷◌ nal) (kept-only skip stays e nals))
  | inr no' ↦
      let skipped : skip nal ≡ true = rw (e nal, no') refl in
      rw (skipped, no') (kept-only skip stays e nals)
]

-- The length of the unit is positive, and fits its field.
abbrev pub UnitOf : ℕ → List ℕ → Type 0
UnitOf width nal = (1 ≤ length nal) × (length nal < (2 ^ 8) ^ width)

module _ (skip : List ℕ → Bool) (width : ℕ) (low : 1 ≤ width) (high : width ≤ 4) where
  convert_nals-step :
      (fuel len : ℕ) (xs body out : List ℕ)
      → 1 ≤ length xs
      → read_be width 0 xs ≡ len
      → drop width xs ≡ body
      → width ≤ length xs
      → 1 ≤ len
      → len ≤ length body
      → convert_nals skip (suc fuel) width xs out
        ≡ convert_nals skip fuel width
            (drop len body)
            (append_unit (skip (take len body)) (take len body) out)
  unfolding convert_nals
  convert_nals-step fuel len [] body out some_bytes e e' room pos fits = absurd (omega arith)
  convert_nals-step fuel len (b ∷ bs) body out some_bytes e e' room pos fits =
      let header : ltb (length (b ∷ bs)) width ≡ false = ground arith in
      let some_len : (len == 0) ≡ false = ground arith in
      let whole : ltb (length body) len ≡ false = ground arith in
      rw (e, e', header, some_len, whole) refl

  convert_nals-unit :
      (fuel : ℕ) (nal rest out : List ℕ)
      → UnitOf width nal
      → convert_nals skip (suc fuel) width (write_be width (length nal) ++ (nal ++ rest)) out
        ≡ convert_nals skip fuel width rest (append_unit (skip nal) nal out)
  convert_nals-unit fuel nal rest out (some_bytes, small) =
      let n = length nal in
      let body = nal ++ rest in
      let xs = write_be width n ++ body in
      let size : length xs ≡ width + length body =
        omega (arith, length-append (write_be width n) body, length-write_be width n) in
      let behind : drop width xs ≡ body =
        ap (λ k. drop k xs) (sym (length-write_be width n))
        ∙ drop_length-append (write_be width n) body in
      convert_nals-step fuel n xs body out (omega arith)
        (read_be-write_be width n body low high small) behind (omega arith) some_bytes
        (omega (arith, length-append nal rest))
      ∙ rw (take_length-append nal rest, drop_length-append nal rest) refl

  append_unit-kept :
      (nal : List ℕ) (nals : List (List ℕ)) (out : List ℕ)
      → append_unit (skip nal) nal out ++ append_nals (kept skip nals)
        ≡ out ++ append_nals (kept skip (nal ∷ nals))
  append_unit-kept nal nals out = elim (Bool-cases (skip nal)) [
    | inl gone ↦ rw gone refl
    | inr stays ↦
        rw (stays, append_assoc out (start_code ++ nal) (append_nals (kept skip nals))) refl
  ]

  -- One step for each unit.
  convert_nals-prefix :
      (nals : List (List ℕ)) (fuel : ℕ) (rest out : List ℕ)
      → All (UnitOf width) nals
      → convert_nals skip (length nals + fuel) width (write_sample width nals ++ rest) out
        ≡ convert_nals skip fuel width rest (out ++ append_nals (kept skip nals))
  convert_nals-prefix [] fuel rest out all =
      let none_taken : 0 + fuel ≡ fuel = omega arith in rw (append-nil out, none_taken) refl
  convert_nals-prefix (nal ∷ nals) fuel rest out (fine, all) =
      let here = write_be width (length nal) in
      let behind = write_sample width nals in
      let flat : write_sample width (nal ∷ nals) ++ rest ≡ here ++ (nal ++ (behind ++ rest)) =
        append_assoc here (nal ++ behind) rest ∙ ap (◌++◌ here) (append_assoc nal behind rest) in
      let one_more : suc (length nals) + fuel ≡ suc (length nals + fuel) = omega arith in
      ap (λ n. convert_nals skip n width (write_sample width (nal ∷ nals) ++ rest) out) one_more
      ∙ ap (λ xs. convert_nals skip (suc (length nals + fuel)) width xs out) flat
      ∙ convert_nals-unit (length nals + fuel) nal (behind ++ rest) out fine
      ∙ convert_nals-prefix nals fuel rest (append_unit (skip nal) nal out) all
      ∙ ap (convert_nals skip fuel width rest) (append_unit-kept nal nals out)

  le-write_sample : (nals : List (List ℕ)) → length nals ≤ length (write_sample width nals)
  le-write_sample [] = omega arith
  le-write_sample (nal ∷ nals) =
      let behind = write_sample width nals in
      omega (
        arith,
        le-write_sample nals,
        length-append (write_be width (length nal)) (nal ++ behind),
        length-append nal behind,
        length-write_be width (length nal),
      )

  convert_nals-end : (fuel : ℕ) (out : List ℕ) → convert_nals skip fuel width [] out ≡ (ok tt, out)
  unfolding convert_nals
  convert_nals-end zero out = refl
  convert_nals-end (suc fuel) out = refl

  convert_nals-short :
      (fuel : ℕ) (rest out : List ℕ)
      → 1 ≤ length rest
      → length rest < width
      → convert_nals skip fuel width rest out ≡ (err malformed, out)
  unfolding convert_nals
  convert_nals-short fuel [] out some_bytes short = absurd (omega arith)
  convert_nals-short zero (b ∷ bs) out some_bytes short = refl
  convert_nals-short (suc fuel) (b ∷ bs) out some_bytes short =
      let cut : ltb (length (b ∷ bs)) width ≡ true = ground arith in rw cut refl

  -- The whole sample, on as much fuel as it has bytes.
  pub convert_nals-write_sample :
      (nals : List (List ℕ)) (out : List ℕ)
      → All (UnitOf width) nals
      → convert_nals skip (length (write_sample width nals)) width (write_sample width nals) out
        ≡ (ok tt, out ++ append_nals (kept skip nals))
  convert_nals-write_sample nals out all =
      let xs = write_sample width nals in
      let fuel : length xs ≡ length nals + (length xs - length nals) =
        omega (arith, le-write_sample nals) in
      ap (λ n. convert_nals skip n width xs out) fuel
      ∙ ap (λ ys. convert_nals skip (length nals + (length xs - length nals)) width ys out)
          (sym (append-nil xs))
      ∙ convert_nals-prefix nals (length xs - length nals) [] out all
      ∙ convert_nals-end (length xs - length nals) _

  pub convert_nals-cut :
      (nals : List (List ℕ)) (rest out : List ℕ)
      → All (UnitOf width) nals
      → 1 ≤ length rest
      → length rest < width
      → convert_nals skip
          (length (write_sample width nals ++ rest))
          width
          (write_sample width nals ++ rest)
          out
        ≡ (err malformed, out ++ append_nals (kept skip nals))
  convert_nals-cut nals rest out all some_bytes short =
      let xs = write_sample width nals ++ rest in
      let fuel : length xs ≡ length nals + (length xs - length nals) =
        omega (arith, le-write_sample nals, length-append (write_sample width nals) rest) in
      ap (λ n. convert_nals skip n width xs out) fuel
      ∙ convert_nals-prefix nals (length xs - length nals) rest out all
      ∙ convert_nals-short (length xs - length nals) rest _ some_bytes short
