-- ===== src/BitReader/Tests.antt =====
-- The bit reader at concrete bytes (bit_reader.hpp).
use rtmp_core.Base.{◌+◌, ◌-◌, ◌%◌, ◌^◌, ◌≡◌, refl, [], ◌∷◌, arith}
use rtmp_core.BitReader.{
  bit_reader, bit, u, u_from, ue, se, negsuc, ue_after, leading_zeros_from, unescape_rbsp,
  unescape_from,
}
use rtmp_core.BitReader.Stream.{bits_of, remaining}
use rtmp_core.BitReader.Codes.{Reads, spelled, ue-Reads}

-- 00101 is the code of 4; the other three bits are left.
ue_4 : (ue (bit_reader (0x2B ∷ []))).0 ≡ 4
unfolding ue ue_after leading_zeros_from u u_from bit
ue_4 = refl

-- The code of 4 is the signed -2.
se_4 : (se (bit_reader (0x2B ∷ []))).0 ≡ negsuc 1
unfolding se ue ue_after leading_zeros_from u u_from bit
se_4 = refl

unescaped : unescape_rbsp (0 ∷ 0 ∷ 3 ∷ 1 ∷ 3 ∷ []) ≡ 0 ∷ 0 ∷ 1 ∷ 3 ∷ []
unfolding unescape_rbsp unescape_from
unescaped = refl

ue-Reads_example :
    Reads
      (bit_reader (0x2B ∷ []))
      ((2 ^ 2 - 1 + spelled (0 ∷ 1 ∷ [])) % 2 ^ 32)
      (0 ∷ 1 ∷ 1 ∷ [])
      (ue (bit_reader (0x2B ∷ [])))
unfolding bits_of remaining
ue-Reads_example =
    ue-Reads (0 ∷ 1 ∷ []) (0 ∷ 1 ∷ 1 ∷ []) (bit_reader (0x2B ∷ [])) (omega arith)
      (omega arith, (omega arith, tt)) refl refl
