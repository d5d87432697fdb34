-- ===== src/Media/Nals.antt =====
-- The loops over NAL units that src/media/h264/avc.cpp, src/media/hevc/hevc.cpp and
-- src/protocol/media/media_ingest.cpp share: the offset into a buffer is the rest of the buffer from
-- there on.
pub mod Laws
use rtmp_core.Base.{
  ℕ, zero, suc, ◌+◌, ◌*◌, ◌/◌, ◌%◌, ◌^◌, List, [], ◌∷◌, ◌++◌, length, take, drop, ltb,
  if◌then◌else◌,
}
use rtmp_core.Core.Error.{Error, malformed_chunk, protocol}
use rtmp_core.Core.Result.{Result, err, ok, ◌>>=◌}
use rtmp_core.Core.ByteOrder.{byte_at, read_u16_be}

abbrev pub malformed : Error
malformed = record { code = malformed_chunk; category = protocol }

-- A big-endian number of `width` bytes, in a uint32_t.
unfoldable pub read_be : ℕ → ℕ → List ℕ → ℕ
read_be zero value xs = value
read_be (suc width) value xs = read_be width (value * 2 ^ 8 % 2 ^ 32 + byte_at xs 0) (drop 1 xs)

-- A NAL unit behind its length in two bytes.
unfoldable pub read_nal : List ℕ → Result (List ℕ × List ℕ)
read_nal xs =
    let len = read_u16_be xs 0 in
    let body = drop 2 xs in
    if ltb (length xs) 2
    then err malformed
    else if ltb (length body) len
    then err malformed
    else ok (take len body, drop len body)

-- `count` of them, and what follows.
unfoldable pub read_nals : ℕ → List ℕ → Result (List (List ℕ) × List ℕ)
read_nals zero xs = ok ([], xs)
read_nals (suc count) xs = do
  (nal, rest) ← read_nal xs
  (nals, rest') ← read_nals count rest
  ok (nal ∷ nals, rest')

abbrev pub start_code : List ℕ
start_code = 0 ∷ 0 ∷ 0 ∷ 1 ∷ []

-- append_start_code, and the unit.
abbrev pub append_nals : List (List ℕ) → List ℕ
append_nals [] = []
append_nals (nal ∷ nals) = start_code ++ (nal ++ append_nals nals)
