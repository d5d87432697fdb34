-- ===== src/Media/Ingest.antt =====
-- src/protocol/media/media_ingest.cpp, with the types of media_ingest.hpp. Counters keep the width of
-- the source.
pub mod AudioCodec
pub mod VideoCodec
pub mod VideoFrameType
pub mod PacketType
pub mod Tags
pub mod Configs
pub mod Headers
pub mod Accounting
use rtmp_core.Base.{
  ℕ, ◌+◌, ◌/◌, ◌%◌, ◌^◌, Bool, true, false, not, ◌&&◌, ◌||◌, Option, none, some, List, [], ◌∷◌,
  length, take, drop, ltb, ◌==◌, same_key, if◌then◌else◌,
}
use rtmp_core.Base.Table.{Table, lookup, set, remove}
use rtmp_core.Core.Error.{Error}
use rtmp_core.Core.Result.{Result, err, ok, guard, ◌>>=◌, ◌>>◌}
use rtmp_core.Core.ByteOrder.{byte_at, read_u32_be}
use rtmp_core.Chunk.{RtmpMessage}
use rtmp_core.Amf0.{
  Value, number, boolean, string, object, null, undefined, ecma_array, strict_array, date,
}
use rtmp_core.Amf0.Decoder.{decode_all}
use rtmp_core.Media.Nals.{malformed, read_nals}
use rtmp_core.Media.Hevc.{HevcDecoderConfig, parse_decoder_config}
use rtmp_core.Media.Ingest.AudioCodec
use rtmp_core.Media.Ingest.VideoCodec
use rtmp_core.Media.Ingest.VideoFrameType
use rtmp_core.Media.Ingest.PacketType
use rtmp_core.Media.Ingest.Tags.{video_info, audio_info, is_packet}
use rtmp_core.Media.Ingest.Configs.{
  AvcSequenceHeader, AacSequenceHeader, parse_avc_sequence_header, parse_aac_sequence_header,
}

pub record MediaStats : Type 0 where
  pub audio_message_count : ℕ
  pub video_message_count : ℕ
  pub metadata_message_count : ℕ
  pub rejected_message_count : ℕ
  pub audio_bytes : ℕ
  pub video_bytes : ℕ
  pub keyframe_count : ℕ
  pub last_audio_timestamp : Option ℕ
  pub last_video_timestamp : Option ℕ
  pub last_keyframe_timestamp : Option ℕ

pub record StreamMediaState : Type 0 where
  pub audio_codec : ℕ
  pub video_codec : ℕ
  pub avc_sequence_header : Option AvcSequenceHeader
  pub aac_sequence_header : Option AacSequenceHeader
  pub hevc_sequence_header : Option HevcDecoderConfig
  pub seen_keyframe : Bool
  pub stats : MediaStats

abbrev pub new_stats : MediaStats
new_stats = record {
  audio_message_count = 0;
  video_message_count = 0;
  metadata_message_count = 0;
  rejected_message_count = 0;
  audio_bytes = 0;
  video_bytes = 0;
  keyframe_count = 0;
  last_audio_timestamp = none;
  last_video_timestamp = none;
  last_keyframe_timestamp = none;
}

abbrev pub new_state : StreamMediaState
new_state = record {
  audio_codec = AudioCodec.unknown;
  video_codec = VideoCodec.unknown;
  avc_sequence_header = none;
  aac_sequence_header = none;
  hevc_sequence_header = none;
  seen_keyframe = false;
  stats = new_stats;
}

abbrev pub Outcome : Type 0
Outcome = Result (Unit {0}) × StreamMediaState

abbrev pub reject : Error → StreamMediaState → Outcome
reject error s = (
  err error,
  record s {
    stats =
        let t : MediaStats = s.stats in
        record t { rejected_message_count = (t.rejected_message_count + 1) % 2 ^ 64 };
  },
)

abbrev pub count_audio : RtmpMessage → StreamMediaState → StreamMediaState
count_audio m s = record s {
  audio_codec = (audio_info m.payload).codec;
  stats =
      let t : MediaStats = s.stats in
      record t {
        audio_message_count = (t.audio_message_count + 1) % 2 ^ 64;
        audio_bytes = (t.audio_bytes + length m.payload) % 2 ^ 64;
        last_audio_timestamp = some m.timestamp;
      };
}

abbrev pub keep_aac : StreamMediaState → Result AacSequenceHeader → Outcome
keep_aac s (err error) = reject error s
keep_aac s (ok header) = (ok tt, record s { aac_sequence_header = some header })

unfoldable pub on_audio : RtmpMessage → StreamMediaState → Outcome
on_audio m s =
    let info = audio_info m.payload in
    let counted = count_audio m s in
    if length m.payload == 0
    then reject malformed s
    else if not (info.codec == AudioCodec.aac)
    then (ok tt, counted)
    else if ltb (length m.payload) 2
    then reject malformed counted
    else if not (is_packet PacketType.sequence_header info.aac_packet_type)
    then (ok tt, counted)
    else keep_aac counted (parse_aac_sequence_header (drop 2 m.payload))

abbrev pub is_key_type : ℕ → Bool
is_key_type frame_type =
    frame_type == VideoFrameType.key_frame || frame_type == VideoFrameType.generated_key_frame

abbrev pub count_keyframe : RtmpMessage → StreamMediaState → StreamMediaState
count_keyframe m s = record s {
  seen_keyframe = true;
  stats =
      let t : MediaStats = s.stats in
      record t {
        keyframe_count = (t.keyframe_count + 1) % 2 ^ 32;
        last_keyframe_timestamp = some m.timestamp;
      };
}

abbrev pub count_video : RtmpMessage → StreamMediaState → StreamMediaState
count_video m s =
    let info = video_info m.payload in
    let counted : StreamMediaState = record s {
      video_codec = info.codec;
      stats =
          let t : MediaStats = s.stats in
          record t {
            video_message_count = (t.video_message_count + 1) % 2 ^ 64;
            video_bytes = (t.video_bytes + length m.payload) % 2 ^ 64;
            last_video_timestamp = some m.timestamp;
          };
    } in
    if is_key_type info.frame_type then count_keyframe m counted else counted

abbrev pub keep_hevc : StreamMediaState → Result HevcDecoderConfig → Outcome
keep_hevc s (err error) = reject error s
keep_hevc s (ok config) = (ok tt, record s { hevc_sequence_header = some config })

abbrev pub keep_avc : StreamMediaState → Result AvcSequenceHeader → Outcome
keep_avc s (err error) = reject error s
keep_avc s (ok header) = (ok tt, record s { avc_sequence_header = some header })

unfoldable pub on_enhanced : RtmpMessage → StreamMediaState → Outcome
on_enhanced m s =
    let info = video_info m.payload in
    if not (info.codec == VideoCodec.hevc) then (ok tt, s) else elim info.ex_packet_type [
      | none ↦ reject malformed s
      | some t ↦
          if not (t == PacketType.sequence_start)
          then (ok tt, s)
          else if ltb (length m.payload) 5
          then reject malformed s
          else keep_hevc s (parse_decoder_config (drop 5 m.payload))
    ]

unfoldable pub on_classic : RtmpMessage → StreamMediaState → Outcome
on_classic m s =
    let info = video_info m.payload in
    if not (info.codec == VideoCodec.avc)
    then (ok tt, s)
    else if ltb (length m.payload) 5
    then reject malformed s
    else if not (is_packet PacketType.sequence_header info.avc_packet_type)
    then (ok tt, s)
    else keep_avc s (parse_avc_sequence_header (drop 5 m.payload))

unfoldable pub on_video : RtmpMessage → StreamMediaState → Outcome
on_video m s =
    let counted = count_video m s in
    if length m.payload == 0
    then reject malformed s
    else if (video_info m.payload).enhanced
    then on_enhanced m counted
    else on_classic m counted

abbrev pub set_data_frame : List ℕ
set_data_frame = 64 ∷ 115 ∷ 101 ∷ 116 ∷ 68 ∷ 97 ∷ 116 ∷ 97 ∷ 70 ∷ 114 ∷ 97 ∷ 109 ∷ 101 ∷ []

abbrev pub on_meta_data : List ℕ
on_meta_data = 111 ∷ 110 ∷ 77 ∷ 101 ∷ 116 ∷ 97 ∷ 68 ∷ 97 ∷ 116 ∷ 97 ∷ []

abbrev pub count_metadata : StreamMediaState → StreamMediaState
count_metadata s = record s {
  stats =
      let t : MediaStats = s.stats in
      record t { metadata_message_count = (t.metadata_message_count + 1) % 2 ^ 64 };
}

-- The name of the event, where the message is decoded and begins with a string, and the number of
-- its values.
abbrev pub event_of : Result (List Value) → Option (List ℕ × ℕ)
event_of (err error) = none
event_of (ok []) = none
event_of (ok (v ∷ vs)) = named v (length (v ∷ vs))
  where
    named : Value → ℕ → Option (List ℕ × ℕ)
    named (string s) n = some (s, n)
    named (number bits) n = none
    named (boolean b) n = none
    named (object ps) n = none
    named null n = none
    named undefined n = none
    named (ecma_array ps) n = none
    named (strict_array vs) n = none
    named (date bits timezone) n = none

unfoldable pub on_metadata : RtmpMessage → StreamMediaState → Outcome
on_metadata m s = elim (event_of (decode_all m.payload)) [
  | none ↦ reject malformed s
  | some (name, n) ↦
      if not (same_key name set_data_frame) && not (same_key name on_meta_data)
      then (ok tt, s)
      else if same_key name set_data_frame && ltb n 2
      then reject malformed s
      else (ok tt, count_metadata s)
]

-- MediaIngest
abbrev pub MediaIngest : Type 0
MediaIngest = Table (List ℕ) StreamMediaState

abbrev pub state_for : List ℕ → MediaIngest → StreamMediaState
state_for stream_key streams = elim (lookup same_key stream_key streams) [
  | none ↦ new_state
  | some s ↦ s
]

abbrev pub at_stream :
    (StreamMediaState → Outcome) → List ℕ → MediaIngest → Result (Unit {0}) × MediaIngest
at_stream handle stream_key streams =
    let (r, s) = handle (state_for stream_key streams) in (r, set same_key stream_key s streams)

abbrev pub on_audio_message : List ℕ → RtmpMessage → MediaIngest → Result (Unit {0}) × MediaIngest
on_audio_message stream_key m streams = at_stream (on_audio m) stream_key streams

abbrev pub on_video_message : List ℕ → RtmpMessage → MediaIngest → Result (Unit {0}) × MediaIngest
on_video_message stream_key m streams = at_stream (on_video m) stream_key streams

abbrev pub on_metadata_message :
    List ℕ → RtmpMessage → MediaIngest → Result (Unit {0}) × MediaIngest
on_metadata_message stream_key m streams = at_stream (on_metadata m) stream_key streams

abbrev pub remove_stream : List ℕ → MediaIngest → MediaIngest
remove_stream stream_key streams = remove same_key stream_key streams

abbrev pub find : List ℕ → MediaIngest → Option StreamMediaState
find stream_key streams = lookup same_key stream_key streams
