-- ===== src/Media/Ingest/Headers.antt =====
-- The sequence headers that a stream keeps (src/protocol/media/media_ingest.cpp).
use rtmp_core.Base.{ℕ, ◌+◌, ◌%◌, ◌^◌, ◌≡◌, ◌||◌, some, List, length, ◌==◌, if◌then◌else◌}
use rtmp_core.Chunk.{RtmpMessage}
use rtmp_core.Media.Avc.{AvcDecoderConfig}
use rtmp_core.Media.Avc.Laws.{write_config, Storable}
use rtmp_core.Media.Ingest.Configs.{AvcSequenceHeader}
use rtmp_core.Media.Ingest.{StreamMediaState}

-- The header that a record of this configuration holds.
abbrev pub header_of : ℕ → ℕ → ℕ → AvcDecoderConfig → AvcSequenceHeader
header_of profile compatibility level config = record {
  profile = profile;
  profile_compatibility = compatibility;
  level = level;
  nalu_length_size = config.nalu_length_size;
  sps_list = config.sps;
  pps_list = config.pps;
}

-- What the message leaves: the header, one more message, its bytes and its time, and all else that a
-- stream keeps of audio, of metadata and of HEVC as it was.
pub record Kept (h : AvcSequenceHeader) (frame_type : ℕ) (m : RtmpMessage)
    (before after : StreamMediaState) : Type 0 where
  pub header : after.avc_sequence_header ≡ some h
  pub codec : after.video_codec ≡ 7
  pub counted : after.stats.video_message_count ≡ (before.stats.video_message_count + 1) % 2 ^ 64
  pub bytes : after.stats.video_bytes ≡ (before.stats.video_bytes + length m.payload) % 2 ^ 64
  pub time : after.stats.last_video_timestamp ≡ some m.timestamp
  pub none_rejected : after.stats.rejected_message_count ≡ before.stats.rejected_message_count
  pub audio_counted : after.stats.audio_message_count ≡ before.stats.audio_message_count
  pub keyframes : after.stats.keyframe_count ≡ (
      if frame_type == 1 || frame_type == 4
      then (before.stats.keyframe_count + 1) % 2 ^ 32
      else before.stats.keyframe_count)
  pub aac : after.aac_sequence_header ≡ before.aac_sequence_header
  pub hevc : after.hevc_sequence_header ≡ before.hevc_sequence_header

module _ (version profile compatibility level : ℕ) (config : AvcDecoderConfig) (trailer : List ℕ)
    (s : Storable config) where
  abbrev buf : List ℕ
  buf = write_config version profile compatibility level config trailer
