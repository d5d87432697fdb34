-- ===== src/Media/Adts/Tests.antt =====
-- Tests of the audio configuration and the ADTS header (src/media/aac/adts.cpp).
use rtmp_core.Base.{◌+◌, ◌-◌, ◌*◌, ◌^◌, ◌≡◌, inr, refl, [], ◌∷◌, arith}
use rtmp_core.Core.Result.{ok, err}
use rtmp_core.Media.Nals.{malformed}
use rtmp_core.Media.Adts.{
  AudioSpecificConfig, parse_audio_specific_config, plain, checked, append_adts_header,
  parse_audio_tag,
}
use rtmp_core.Media.Adts.Laws.{
  write_config, IsConfig, number_from, parse_audio_specific_config-write_config,
  number_from-append_adts_header,
}

abbrev stereo : AudioSpecificConfig
stereo = record { object_type = 2; sampling_frequency_index = 4; channel_configuration = 2 }

abbrev unusual : AudioSpecificConfig
unusual = record { object_type = 42; sampling_frequency_index = 3; channel_configuration = 1 }

unusual-IsConfig : IsConfig unusual
unusual-IsConfig = record {
  some_type = omega arith;
  no_escape = inr (omega arith);
  low_type = omega arith;
  low_index = omega arith;
  low_channels = omega arith;
}

write_config-stereo : write_config stereo ≡ 0x12 ∷ 0x10 ∷ []
write_config-stereo = refl

parse_explicit_rate : parse_audio_specific_config (0x17 ∷ 0x80 ∷ []) ≡ err malformed
unfolding parse_audio_specific_config plain checked
parse_explicit_rate = refl

parse_audio_tag_mp3 : parse_audio_tag (0x2F ∷ 0 ∷ []) ≡ err malformed
unfolding parse_audio_tag
parse_audio_tag_mp3 = refl

append_adts_header-stereo :
    append_adts_header stereo 100 ≡ 0xFF ∷ 0xF1 ∷ 0x50 ∷ 0x80 ∷ 0x0D ∷ 0x7F ∷ 0xFC ∷ []
unfolding append_adts_header
append_adts_header-stereo = refl

parse_audio_specific_config-write_config_example :
    parse_audio_specific_config (write_config unusual) ≡ ok unusual
parse_audio_specific_config-write_config_example =
    parse_audio_specific_config-write_config unusual unusual-IsConfig

number_from-append_adts_header_example :
    number_from 0 (append_adts_header stereo 100)
    ≡ 0xFFF * 2 ^ 44
      + 1 * 2 ^ 40
      + (2 - 1) * 2 ^ 38
      + 4 * 2 ^ 34
      + 2 * 2 ^ 30
      + (100 + 7) * 2 ^ 13
      + 0x7FF * 2 ^ 2
number_from-append_adts_header_example =
    number_from-append_adts_header stereo 100 (omega arith) (omega arith) (omega arith)
      (omega arith) (omega arith)
