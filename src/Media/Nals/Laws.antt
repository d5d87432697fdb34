-- ===== src/Media/Nals/Laws.antt =====
-- Lists of NAL units that are written and read back (src/media/h264/avc.cpp, src/media/hevc/hevc.cpp).
use rtmp_core.Base.{
  ℕ, zero, suc, ◌/◌, ◌%◌, ◌^◌, ◌≤◌, ◌<◌, ◌≡◌, refl, ap, ◌∙◌, List, [], ◌∷◌, ◌++◌, All, arith,
  length, length-append, take_length-append, drop_length-append, append_assoc, ltb, false,
}
use rtmp_core.Core.Result.{ok}
use rtmp_core.Core.ByteOrder.{write_u16_be, read_u16_be, read-write_u16_be}
use rtmp_core.Media.Nals.{read_be, read_nal, read_nals}

-- The units as a configuration record holds them.
abbrev pub write_nals : List (List ℕ) → List ℕ
write_nals [] = []
write_nals (nal ∷ nals) = write_u16_be (length nal) ++ (nal ++ write_nals nals)

abbrev pub Short : List ℕ → Type 0
Short nal = length nal < 2 ^ 16

read_nal-write :
    (nal rest : List ℕ)
    → Short nal
    → read_nal (write_u16_be (length nal) ++ (nal ++ rest)) ≡ ok (nal, rest)
unfolding read_nal write_u16_be
read_nal-write nal rest short =
    let n = length nal in
    let len : read_u16_be (write_u16_be n ++ (nal ++ rest)) 0 ≡ n =
      read-write_u16_be n (nal ++ rest) short in
    let header : ltb (length (write_u16_be n ++ (nal ++ rest))) 2 ≡ false = ground arith in
    let room : ltb (length (nal ++ rest)) n ≡ false = ground (arith, length-append nal rest) in
    rw (len, header, room, take_length-append nal rest, drop_length-append nal rest) refl

pub read_nals-write_nals :
    (nals : List (List ℕ)) (rest : List ℕ)
    → All Short nals
    → read_nals (length nals) (write_nals nals ++ rest) ≡ ok (nals, rest)
unfolding read_nals
read_nals-write_nals [] rest short = refl
read_nals-write_nals (nal ∷ nals) rest (short, others) =
    let flat : write_nals (nal ∷ nals) ++ rest
        ≡ write_u16_be (length nal) ++ (nal ++ (write_nals nals ++ rest)) =
      append_assoc (write_u16_be (length nal)) (nal ++ write_nals nals) rest
      ∙ ap (◌++◌ (write_u16_be (length nal))) (append_assoc nal (write_nals nals) rest) in
    rw
      (
        flat,
        read_nal-write nal (write_nals nals ++ rest) short,
        read_nals-write_nals nals rest others,
      )
      refl

-- A number of one to four bytes, the highest first.
abbrev pub write_be : ℕ → ℕ → List ℕ
write_be zero v = []
write_be (suc width) v = (v / (2 ^ 8) ^ width % 256) ∷ write_be width v

pub read_be-write_be :
    (width v : ℕ) (rest : List ℕ)
    → 1 ≤ width
    → width ≤ 4
    → v < (2 ^ 8) ^ width
    → read_be width 0 (write_be width v ++ rest) ≡ v
unfolding read_be
read_be-write_be zero v rest low high small = absurd (omega arith)
read_be-write_be (suc zero) v rest low high small = omega arith
read_be-write_be (suc (suc zero)) v rest low high small = omega arith
read_be-write_be (suc (suc (suc zero))) v rest low high small = omega arith
read_be-write_be (suc (suc (suc (suc zero)))) v rest low high small = omega arith
read_be-write_be (suc (suc (suc (suc (suc width))))) v rest low high small = absurd (omega arith)

pub length-write_be : (width v : ℕ) → length (write_be width v) ≡ width
length-write_be zero v = refl
length-write_be (suc width) v = ap suc (length-write_be width v)
