-- ===== src/Media/Annexb.antt =====
-- The loop of avcc_to_annexb (src/media/h264/avc.cpp) and of hvcc_to_annexb (src/media/hevc/hevc.cpp),
-- which differ in the units that they leave out. The offset into the sample is the rest of the
-- sample from there on, and `out` is what was appended so far.
pub mod Laws
use rtmp_core.Base.{
  ℕ, zero, suc, ◌≤◌, Bool, not, ◌&&◌, List, [], ◌∷◌, ◌++◌, length, take, drop, ltb, ◌==◌,
  if◌then◌else◌,
}
use rtmp_core.Core.Result.{Result, err, ok}
use rtmp_core.Media.Nals.{malformed, read_be, start_code}

abbrev pub append_unit : Bool → List ℕ → List ℕ → List ℕ
append_unit skipped nal out = if skipped then out else out ++ (start_code ++ nal)

-- A length of 0 holds no unit.
abbrev pub after_length : (List ℕ → Bool) → ℕ → List ℕ → List ℕ → List ℕ × List ℕ
after_length skip len body out =
    let nal = take len body in
    if len == 0 then (body, out) else (drop len body, append_unit (skip nal) nal out)

-- A step takes a byte at least, where width is positive: as many steps as there are bytes are enough.
unfoldable pub convert_nals : (List ℕ → Bool) → ℕ → ℕ → List ℕ → List ℕ → Result (Unit {0}) × List ℕ
convert_nals skip fuel width [] out = (ok tt, out)
convert_nals skip zero width (b ∷ bs) out = (err malformed, out)
convert_nals skip (suc fuel) width (b ∷ bs) out =
    let sample = b ∷ bs in
    let len = read_be width 0 sample in
    let body = drop width sample in
    let (rest, out') = after_length skip len body out in
    let more = convert_nals skip fuel width rest out' in
    if ltb (length sample) width
    then (err malformed, out)
    else if not (len == 0) && ltb (length body) len
    then (err malformed, out)
    else more
