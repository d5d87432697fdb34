-- ===== src/Media/Avc.antt =====
-- src/media/h264/avc.cpp.
pub mod Laws
use rtmp_core.Base.{
  ℕ, suc, ◌+◌, ◌/◌, ◌%◌, ◌^◌, ◌≤◌, Bool, true, false, not, ◌&&◌, ◌||◌, List, [], ◌∷◌, ◌++◌, length,
  take, drop, ltb, ◌==◌, if◌then◌else◌,
}
use rtmp_core.Core.Result.{Result, err, ok, guard, ◌>>=◌, ◌>>◌}
use rtmp_core.Core.ByteOrder.{byte_at, read_u24_be}
use rtmp_core.Media.Nals.{malformed, read_nals, start_code, append_nals}
use rtmp_core.Media.Annexb.{convert_nals}

abbrev pub nal_type_sps : ℕ
nal_type_sps = 7

abbrev pub nal_type_pps : ℕ
nal_type_pps = 8

abbrev pub nal_type_aud : ℕ
nal_type_aud = 9

pub record AvcDecoderConfig : Type 0 where
  pub nalu_length_size : ℕ
  pub sps : List (List ℕ)
  pub pps : List (List ℕ)

abbrev pub valid : AvcDecoderConfig → Bool
valid config = not (length config.sps == 0) && not (length config.pps == 0)

-- A signed number of 24 bits is kept as its bits; `is_negative` is its top bit.
pub record VideoTag : Type 0 where
  pub is_keyframe : Bool
  pub avc_packet_type : ℕ
  pub composition_time : ℕ
  pub is_negative : Bool
  pub body : List ℕ

unfoldable pub parse_video_tag : List ℕ → Result VideoTag
parse_video_tag payload =
    let header = byte_at payload 0 in
    let cts = read_u24_be payload 2 in
    if ltb (length payload) 5
    then err malformed
    else if not (header % 16 == 7)
    then err malformed
    else ok (record {
      is_keyframe = header / 2 ^ 4 % 16 == 1;
      avc_packet_type = byte_at payload 1;
      composition_time = cts;
      is_negative = not (cts / 2 ^ 23 % 2 == 0);
      body = drop 5 payload;
    })

-- From the count of the picture parameter sets on.
unfoldable pub parse_pps : ℕ → List (List ℕ) → List ℕ → Result AvcDecoderConfig
parse_pps nalu_length_size sps rest = do
  guard (ltb 0 (length rest)) malformed
  (pps, _) ← read_nals (byte_at rest 0) (drop 1 rest)
  let config : AvcDecoderConfig = record {
    nalu_length_size = nalu_length_size;
    sps = sps;
    pps = pps;
  } in
      if valid config then ok config else err malformed

unfoldable pub parse_decoder_config : List ℕ → Result AvcDecoderConfig
parse_decoder_config buf = do
  guard (not (ltb (length buf) 6)) malformed
  (sps, rest) ← read_nals (byte_at buf 5 % 32) (drop 6 buf)
  parse_pps (byte_at buf 4 % 4 + 1) sps rest

-- The units that the muxer supplies itself.
abbrev pub is_skipped : Bool → List ℕ → Bool
is_skipped insert_parameter_sets nal =
    let nal_type = byte_at nal 0 % 32 in
    (nal_type == nal_type_aud)
    || (insert_parameter_sets && (nal_type == nal_type_sps || nal_type == nal_type_pps))

abbrev pub access_unit_delimiter : List ℕ
access_unit_delimiter = start_code ++ (0x09 ∷ 0xF0 ∷ [])

-- `out` before the call is empty here; the code appends.
unfoldable pub avcc_to_annexb : List ℕ → AvcDecoderConfig → Bool → Result (Unit {0}) × List ℕ
avcc_to_annexb sample config insert_parameter_sets =
    let width = config.nalu_length_size in
    let sets =
      (if insert_parameter_sets then append_nals config.sps ++ append_nals config.pps else []) in
    if ltb width 1 || ltb 4 width
    then (err malformed, [])
    else convert_nals (is_skipped insert_parameter_sets) (length sample) width sample
        (access_unit_delimiter ++ sets)
