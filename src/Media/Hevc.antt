-- ===== src/Media/Hevc.antt =====
-- src/media/hevc/hevc.cpp.
pub mod Laws
use rtmp_core.Base.{
  ℕ, zero, suc, ◌+◌, ◌/◌, ◌%◌, ◌^◌, ◌≤◌, Bool, true, false, not, ◌&&◌, ◌||◌, List, [], ◌∷◌, ◌++◌,
  length, take, drop, ltb, ◌==◌, if◌then◌else◌,
}
use rtmp_core.Core.Result.{Result, err, ok, guard, ◌>>=◌, ◌>>◌}
use rtmp_core.Core.ByteOrder.{byte_at, read_u16_be}
use rtmp_core.Media.Nals.{malformed, read_nals, append_nals}
use rtmp_core.Media.Annexb.{convert_nals}

abbrev pub nal_type_vps : ℕ
nal_type_vps = 32

abbrev pub nal_type_sps : ℕ
nal_type_sps = 33

abbrev pub nal_type_pps : ℕ
nal_type_pps = 34

abbrev pub nal_type_aud : ℕ
nal_type_aud = 35

abbrev pub fixed_header_size : ℕ
fixed_header_size = 23

pub record HevcDecoderConfig : Type 0 where
  pub nalu_length_size : ℕ
  pub vps : List (List ℕ)
  pub sps : List (List ℕ)
  pub pps : List (List ℕ)

abbrev pub valid : HevcDecoderConfig → Bool
valid config = not (length config.sps == 0) && not (length config.pps == 0)

-- The units of one array; those of any other type are passed over.
unfoldable pub add_array : ℕ → List (List ℕ) → HevcDecoderConfig → HevcDecoderConfig
add_array nal_unit_type nals config =
    if nal_unit_type == nal_type_vps
    then record config { vps = config.vps ++ nals }
    else if nal_unit_type == nal_type_sps
    then record config { sps = config.sps ++ nals }
    else if nal_unit_type == nal_type_pps
    then record config { pps = config.pps ++ nals }
    else config

unfoldable pub read_arrays : ℕ → List ℕ → HevcDecoderConfig → Result HevcDecoderConfig
read_arrays zero xs config = ok config
read_arrays (suc count) xs config = do
  guard (not (ltb (length xs) 3)) malformed
  (nals, rest) ← read_nals (read_u16_be xs 1) (drop 3 xs)
  read_arrays count rest (add_array (byte_at xs 0 % 64) nals config)

abbrev pub new_config : ℕ → HevcDecoderConfig
new_config nalu_length_size = record {
  nalu_length_size = nalu_length_size;
  vps = [];
  sps = [];
  pps = [];
}

unfoldable pub parse_decoder_config : List ℕ → Result HevcDecoderConfig
parse_decoder_config buf = do
  guard (not (ltb (length buf) fixed_header_size)) malformed
  config ←
      read_arrays (byte_at buf 22) (drop fixed_header_size buf)
        (new_config (byte_at buf 21 % 4 + 1))
  if valid config then ok config else err malformed

abbrev pub is_skipped : Bool → List ℕ → Bool
is_skipped insert_parameter_sets nal =
    let nal_type = byte_at nal 0 / 2 % 64 in
    (nal_type == nal_type_aud)
    || (insert_parameter_sets
        && (nal_type == nal_type_vps || nal_type == nal_type_sps || nal_type == nal_type_pps))

-- `out` before the call is empty here; the code appends.
unfoldable pub hvcc_to_annexb : List ℕ → HevcDecoderConfig → Bool → Result (Unit {0}) × List ℕ
hvcc_to_annexb sample config insert_parameter_sets =
    let width = config.nalu_length_size in
    let sets =
      (if insert_parameter_sets
        then append_nals config.vps ++ (append_nals config.sps ++ append_nals config.pps)
        else []) in
    if ltb width 1 || ltb 4 width
    then (err malformed, [])
    else convert_nals (is_skipped insert_parameter_sets) (length sample) width sample sets
