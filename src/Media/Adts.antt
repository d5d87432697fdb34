-- ===== src/Media/Adts.antt =====
-- src/media/aac/adts.cpp and include/rtmp_server/media/aac/adts.hpp. Parts that the source joins by
-- `|` have no bit in common, so the sum is the same number.
pub mod Laws
pub mod Tests
use rtmp_core.Base.{
  ℕ, ◌+◌, ◌-◌, ◌*◌, ◌/◌, ◌%◌, ◌^◌, Bool, true, false, not, List, [], ◌∷◌, ◌++◌, length, drop, ltb,
  leb, ◌==◌, if◌then◌else◌, get_or,
}
use rtmp_core.Core.ByteOrder.{byte_at}
use rtmp_core.Core.Result.{Result, err, ok}
use rtmp_core.Media.Nals.{malformed}

abbrev pub sound_format_aac : ℕ
sound_format_aac = 10

abbrev pub adts_header_size : ℕ
adts_header_size = 7

abbrev pub sampling_frequencies : List ℕ
sampling_frequencies =
    96000 ∷ 88200 ∷ 64000 ∷ 48000 ∷ 44100 ∷ 32000 ∷ 24000 ∷ 22050 ∷ 16000 ∷ 12000 ∷ 11025 ∷ 8000
    ∷ 7350 ∷ []

pub record AudioSpecificConfig : Type 0 where
  pub object_type : ℕ
  pub sampling_frequency_index : ℕ
  pub channel_configuration : ℕ

abbrev pub sample_rate : AudioSpecificConfig → ℕ
sample_rate c = get_or sampling_frequencies c.sampling_frequency_index 0

pub record AudioTag : Type 0 where
  pub sound_format : ℕ
  pub aac_packet_type : ℕ
  pub body : List ℕ

unfoldable pub parse_audio_tag : List ℕ → Result AudioTag
parse_audio_tag payload =
    let sound_format = byte_at payload 0 / 2 ^ 4 % 2 ^ 4 in
    if ltb (length payload) 2
    then err malformed
    else if not (sound_format == sound_format_aac)
    then err malformed
    else ok (record {
      sound_format = sound_format;
      aac_packet_type = byte_at payload 1;
      body = drop 2 payload;
    })

-- The last checks.
unfoldable pub checked : AudioSpecificConfig → Result AudioSpecificConfig
checked out =
    if leb (length sampling_frequencies) out.sampling_frequency_index
    then err malformed
    else if out.object_type == 0
    then err malformed
    else ok out

unfoldable pub escaped : List ℕ → AudioSpecificConfig
escaped config =
    let bits = byte_at config 0 * 2 ^ 16 + byte_at config 1 * 2 ^ 8 + byte_at config 2 in
    record {
      object_type = 32 + bits / 2 ^ 13 % 2 ^ 6;
      sampling_frequency_index = bits / 2 ^ 9 % 2 ^ 4;
      channel_configuration = bits / 2 ^ 5 % 2 ^ 4;
    }

unfoldable pub plain : List ℕ → AudioSpecificConfig
plain config =
    let b0 = byte_at config 0 in
    let b1 = byte_at config 1 in
    record {
      object_type = b0 / 2 ^ 3 % 2 ^ 5;
      sampling_frequency_index = b0 % 2 ^ 3 * 2 + b1 / 2 ^ 7 % 2;
      channel_configuration = b1 / 2 ^ 3 % 2 ^ 4;
    }

unfoldable pub parse_audio_specific_config : List ℕ → Result AudioSpecificConfig
parse_audio_specific_config config =
    if ltb (length config) 2
    then err malformed
    else if not (byte_at config 0 / 2 ^ 3 % 2 ^ 5 == 31)
    then checked (plain config)
    else if ltb (length config) 3
    then err malformed
    else checked (escaped config)

-- The bytes that are appended. Object type 0 has profile 3: the difference is taken modulo 4.
unfoldable pub append_adts_header : AudioSpecificConfig → ℕ → List ℕ
append_adts_header config aac_frame_length =
    let len = (aac_frame_length + adts_header_size) % 2 ^ 13 in
    let profile = (config.object_type + 3) % 2 ^ 2 in
    0xFF
    ∷ 0xF1
    ∷ (profile * 2 ^ 6
        + config.sampling_frequency_index % 2 ^ 4 * 2 ^ 2
        + config.channel_configuration / 2 ^ 2 % 2)
    ∷ (config.channel_configuration % 2 ^ 2 * 2 ^ 6 + len / 2 ^ 11 % 2 ^ 2)
    ∷ (len / 2 ^ 3 % 2 ^ 8)
    ∷ (len % 2 ^ 3 * 2 ^ 5 + 0x1F)
    ∷ 0xFC
    ∷ []
