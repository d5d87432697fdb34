-- ===== src/Media/Ingest/Configs.antt =====
-- The two decoder configurations that src/protocol/media/media_ingest.cpp parses itself.
use rtmp_core.Base.{
  ℕ, ◌+◌, ◌*◌, ◌/◌, ◌%◌, ◌^◌, not, ◌||◌, List, [], ◌∷◌, length, drop, ltb, ◌==◌, if◌then◌else◌,
}
use rtmp_core.Core.Result.{Result, err, ok, guard, ◌>>=◌, ◌>>◌}
use rtmp_core.Core.ByteOrder.{byte_at}
use rtmp_core.Media.Nals.{malformed, read_nals}

pub record AvcSequenceHeader : Type 0 where
  pub profile : ℕ
  pub profile_compatibility : ℕ
  pub level : ℕ
  pub nalu_length_size : ℕ
  pub sps_list : List (List ℕ)
  pub pps_list : List (List ℕ)

pub record AacSequenceHeader : Type 0 where
  pub object_type : ℕ
  pub sampling_frequency_index : ℕ
  pub sampling_frequency : ℕ
  pub channel_configuration : ℕ
  pub raw : List ℕ

unfoldable pub parse_avc_sequence_header : List ℕ → Result AvcSequenceHeader
parse_avc_sequence_header payload = do
  guard (not (ltb (length payload) 6)) malformed
  (sps, rest) ← read_nals (byte_at payload 5 % 32) (drop 6 payload)
  guard (not (ltb (length rest) 1)) malformed
  (pps, _) ← read_nals (byte_at rest 0) (drop 1 rest)
  guard (not ((length sps == 0) || (length pps == 0))) malformed
  ok (record {
    profile = byte_at payload 1;
    profile_compatibility = byte_at payload 2;
    level = byte_at payload 3;
    nalu_length_size = byte_at payload 4 % 4 + 1;
    sps_list = sps;
    pps_list = pps;
  })

-- kAacSampleRates; the thirteenth entry of the array is left at 0.
abbrev pub aac_sample_rates : List ℕ
aac_sample_rates =
    96000 ∷ 88200 ∷ 64000 ∷ 48000 ∷ 44100 ∷ 32000 ∷ 24000 ∷ 22050 ∷ 16000 ∷ 11025 ∷ 8000 ∷ 7350 ∷ 0
    ∷ []

-- 0 behind the end, as byte_at reads.
abbrev pub aac_sample_rate_for_index : ℕ → ℕ
aac_sample_rate_for_index index = byte_at aac_sample_rates index

unfoldable pub parse_aac_sequence_header : List ℕ → Result AacSequenceHeader
parse_aac_sequence_header payload =
    let b0 = byte_at payload 0 in
    let b1 = byte_at payload 1 in
    let index = b0 % 8 * 2 + b1 / 2 ^ 7 in
    if ltb (length payload) 2
    then err malformed
    else if b0 / 2 ^ 3 == 0
    then err malformed
    else ok (record {
      object_type = b0 / 2 ^ 3;
      sampling_frequency_index = index;
      sampling_frequency = aac_sample_rate_for_index index;
      channel_configuration = b1 / 2 ^ 3 % 16;
      raw = payload;
    })
