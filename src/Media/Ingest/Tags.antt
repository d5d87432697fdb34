-- ===== src/Media/Ingest/Tags.antt =====
-- The first bytes of an FLV tag (src/protocol/media/media_ingest.cpp, classify_video_tag and
-- classify_audio_tag). A value of an enumeration that is read from the wire is its number.
use rtmp_core.Base.{
  ℕ, ◌/◌, ◌%◌, ◌^◌, Bool, true, false, not, ◌&&◌, ◌||◌, Option, none, some, List, length, ltb, ◌==◌,
  if◌then◌else◌,
}
use rtmp_core.Core.ByteOrder.{byte_at, read_u32_be}
use rtmp_core.Media.Ingest.AudioCodec
use rtmp_core.Media.Ingest.VideoCodec

-- 'hvc1'
abbrev pub video_four_cc_hevc : ℕ
video_four_cc_hevc = 0x68766331

pub record VideoTagInfo : Type 0 where
  pub frame_type : ℕ
  pub codec : ℕ
  pub avc_packet_type : Option ℕ
  pub enhanced : Bool
  pub fourcc : ℕ
  pub ex_packet_type : Option ℕ

pub record AudioTagInfo : Type 0 where
  pub codec : ℕ
  pub aac_packet_type : Option ℕ

-- Of a payload that is not empty.
abbrev pub enhanced_info : List ℕ → VideoTagInfo
enhanced_info payload =
    let tag = byte_at payload 0 in
    let fourcc = read_u32_be payload 1 in
    let short = ltb (length payload) 5 in
    record {
      frame_type = tag / 2 ^ 4 % 8;
      codec =
          if not short && (fourcc == video_four_cc_hevc)
          then VideoCodec.hevc
          else VideoCodec.unknown;
      avc_packet_type = none;
      enhanced = true;
      fourcc = if short then 0 else fourcc;
      ex_packet_type = some (tag % 16);
    }

abbrev pub classic_info : List ℕ → VideoTagInfo
classic_info payload =
    let tag = byte_at payload 0 in
    let codec = tag % 16 in
    let typed = (codec == VideoCodec.avc || codec == VideoCodec.hevc) && ltb 1 (length payload) in
    record {
      frame_type = tag / 2 ^ 4;
      codec = codec;
      avc_packet_type = if typed then some (byte_at payload 1) else none;
      enhanced = false;
      fourcc = 0;
      ex_packet_type = none;
    }

abbrev pub video_info : List ℕ → VideoTagInfo
video_info payload =
    if not (byte_at payload 0 / 2 ^ 7 % 2 == 0) then enhanced_info payload else classic_info payload

abbrev pub audio_info : List ℕ → AudioTagInfo
audio_info payload =
    let codec = byte_at payload 0 / 2 ^ 4 in
    record {
      codec = codec;
      aac_packet_type =
          if (codec == AudioCodec.aac) && ltb 1 (length payload)
          then some (byte_at payload 1)
          else none;
    }

unfoldable pub classify_video_tag : List ℕ → Option VideoTagInfo
classify_video_tag payload = if length payload == 0 then none else some (video_info payload)

unfoldable pub classify_audio_tag : List ℕ → Option AudioTagInfo
classify_audio_tag payload = if length payload == 0 then none else some (audio_info payload)

abbrev pub is_packet : ℕ → Option ℕ → Bool
is_packet packet_type none = false
is_packet packet_type (some t) = t == packet_type
