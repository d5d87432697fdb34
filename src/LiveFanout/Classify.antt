-- ===== src/LiveFanout/Classify.antt =====
-- What a frame is for the fan-out (src/protocol/commands/live_fanout.cpp).
use rtmp_core.Base.{Bool, false, not, ◌&&◌, ◌||◌, none, some, ◌==◌}
use rtmp_core.Media.Ingest.VideoCodec
use rtmp_core.Media.Ingest.AudioCodec
use rtmp_core.Media.Ingest.PacketType
use rtmp_core.Media.Ingest.{is_key_type}
use rtmp_core.Media.Ingest.Tags.{
  VideoTagInfo, AudioTagInfo, classify_video_tag, classify_audio_tag, is_packet,
}
use rtmp_core.Playback.GopCache.{SharedMediaFrame}

abbrev pub has_keyframe : VideoTagInfo → Bool
has_keyframe info =
    is_key_type info.frame_type
    && (not (info.codec == VideoCodec.avc) || is_packet PacketType.avc_nalu info.avc_packet_type)

unfoldable pub classify_is_video_keyframe : SharedMediaFrame → Bool
classify_is_video_keyframe frame = elim (classify_video_tag frame.payload) [
  | none ↦ false
  | some info ↦ has_keyframe info
]

abbrev pub has_video_header : VideoTagInfo → Bool
has_video_header info =
    (info.codec == VideoCodec.avc) && is_packet PacketType.sequence_header info.avc_packet_type

unfoldable pub classify_is_video_sequence_header : SharedMediaFrame → Bool
classify_is_video_sequence_header frame = elim (classify_video_tag frame.payload) [
  | none ↦ false
  | some info ↦ has_video_header info
]

abbrev pub has_audio_header : AudioTagInfo → Bool
has_audio_header info =
    (info.codec == AudioCodec.aac) && is_packet PacketType.sequence_header info.aac_packet_type

unfoldable pub classify_is_audio_sequence_header : SharedMediaFrame → Bool
classify_is_audio_sequence_header frame = elim (classify_audio_tag frame.payload) [
  | none ↦ false
  | some info ↦ has_audio_header info
]
