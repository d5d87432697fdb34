-- ===== src/LiveFanout.antt =====
-- src/protocol/commands/live_fanout.cpp. Each operation runs to its end before the next one begins: an
-- operation of another thread between the two phases of one is not modelled.
pub mod State
pub mod Classify
pub mod Dispatch
pub mod Deliveries
pub mod Observe
pub mod Gauge
pub mod Viewers
pub mod Startup
pub mod Tests
use rtmp_core.Base.{
  ℕ, suc, ◌+◌, ◌-◌, ◌%◌, ◌^◌, Bool, true, false, not, ◌&&◌, ◌||◌, Option, none, some, List, [], ◌∷◌,
  ◌++◌, length, ltb, ◌==◌, same_key, if◌then◌else◌,
}
use rtmp_core.Base.Table.{Table, lookup, set, remove, total}
use rtmp_core.Chunk.MessageTypeId
use rtmp_core.Media.Ingest.VideoCodec
use rtmp_core.Media.Ingest.AudioCodec
use rtmp_core.Media.Ingest.PacketType
use rtmp_core.Media.Ingest.{is_key_type}
use rtmp_core.Media.Ingest.Tags.{
  VideoTagInfo, AudioTagInfo, classify_video_tag, classify_audio_tag, is_packet,
}
use rtmp_core.Playback.GopCache.{SharedMediaFrame, GopCache, begin_new_gop, push}
use rtmp_core.Playback.ViewerQueue.{new_queue}
use rtmp_core.LiveFanout.State.{
  MediaKind, audio, video, metadata, Call, sent, evicted, stopped, forwarded, subscribed,
  unsubscribed, ended, Outside, Sinks, Metrics, count, call, plus, minus, Subscriber, Subscribers,
  StreamState, new_state, LiveFanout,
}
use rtmp_core.LiveFanout.Classify.{
  classify_is_video_keyframe, classify_is_video_sequence_header, classify_is_audio_sequence_header,
}
use rtmp_core.LiveFanout.Dispatch.{Incoming, dispatch_locked}
use rtmp_core.LiveFanout.Deliveries.{Sending, send, egress_counted, count_egress, run_deliveries}

-- An entry that is not there is made.
unfoldable pub state_for : ℕ → LiveFanout → StreamState
state_for stream_id l = elim (lookup ◌==◌ stream_id l.streams) [
  | none ↦ new_state l.gop_limits
  | some state ↦ state
]

-- The end that on_video, on_audio and on_metadata share: dispatch, delivery, and the forward hook.
unfoldable pub publish : Sinks → Incoming → Bool → Bool → StreamState → LiveFanout → LiveFanout
publish accepts f is_sticky is_replayed state l =
    let (deliveries, dispatched, o) = dispatch_locked state f l.outside in
    let (state', o') =
      run_deliveries accepts l.max_frames_waiting_for_keyframe f.stream_id deliveries dispatched
        o in
    record l {
      streams = set ◌==◌ f.stream_id state' l.streams;
      outside =
          if is_replayed
          then o'
          else call (forwarded f.stream_id f.frame f.kind is_sticky f.is_keyframe) o';
    }

unfoldable pub cache_video : SharedMediaFrame → StreamState → StreamState
cache_video frame state =
    if classify_is_video_sequence_header frame
    then record state { video_sequence_header = some frame }
    else if classify_is_video_keyframe frame
    then record state { gop_cache = begin_new_gop frame state.gop_cache }
    else record state { gop_cache = (push frame state.gop_cache).1 }

abbrev pub on_video : Sinks → ℕ → SharedMediaFrame → Bool → LiveFanout → LiveFanout
on_video accepts stream_id frame is_replayed l =
    let header = classify_is_video_sequence_header frame in
    publish accepts
      (record {
        stream_id = stream_id;
        frame = frame;
        kind = video;
        is_keyframe = not header && classify_is_video_keyframe frame;
      })
      header is_replayed (cache_video frame (state_for stream_id l)) l

unfoldable pub cache_audio : SharedMediaFrame → StreamState → StreamState
cache_audio frame state =
    if classify_is_audio_sequence_header frame
    then record state { audio_sequence_header = some frame }
    else record state { gop_cache = (push frame state.gop_cache).1 }

abbrev pub on_audio : Sinks → ℕ → SharedMediaFrame → Bool → LiveFanout → LiveFanout
on_audio accepts stream_id frame is_replayed l =
    publish accepts
      (record { stream_id = stream_id; frame = frame; kind = audio; is_keyframe = false })
      (classify_is_audio_sequence_header frame) is_replayed
      (cache_audio frame (state_for stream_id l)) l

abbrev pub cache_metadata : SharedMediaFrame → StreamState → StreamState
cache_metadata frame state = record state { metadata_frame = some frame }

abbrev pub on_metadata : Sinks → ℕ → SharedMediaFrame → Bool → LiveFanout → LiveFanout
on_metadata accepts stream_id frame is_replayed l =
    publish accepts
      (record { stream_id = stream_id; frame = frame; kind = metadata; is_keyframe = false }) true
      is_replayed (cache_metadata frame (state_for stream_id l)) l

abbrev pub optional : Option SharedMediaFrame → List SharedMediaFrame
optional none = []
optional (some frame) = frame ∷ []

abbrev pub startup_metadata_and_headers : StreamState → List SharedMediaFrame
startup_metadata_and_headers state =
    optional state.metadata_frame
    ++ (optional state.video_sequence_header ++ optional state.audio_sequence_header)

abbrev pub header_kind : SharedMediaFrame → MediaKind
header_kind frame =
    if classify_is_video_sequence_header frame
    then video
    else if classify_is_audio_sequence_header frame
    then audio
    else metadata

abbrev pub gop_kind : SharedMediaFrame → MediaKind
gop_kind frame = if frame.message_type_id == MessageTypeId.video then video else audio

unfoldable pub send_all :
    Sinks → (SharedMediaFrame → MediaKind) → ℕ → List SharedMediaFrame → Sending → Sending
send_all accepts kind_of sink [] s = s
send_all accepts kind_of sink (frame ∷ rest) s =
    send_all accepts kind_of sink rest (send accepts (kind_of frame) sink frame s).1

-- `emplace` leaves an entry of that id as it is.
unfoldable pub emplace : ℕ → Subscriber → Subscribers → Subscribers
emplace id sub subscribers = elim (lookup ◌==◌ id subscribers) [
  | none ↦ set ◌==◌ id sub subscribers
  | some old ↦ subscribers
]

abbrev pub viewer_counted : Metrics → Metrics
viewer_counted m = record m { active_viewers = plus m.active_viewers 1 }

abbrev pub new_subscriber : ℕ → List ℕ → LiveFanout → Subscriber
new_subscriber sink client_ip l = record {
  sink = sink;
  queue = new_queue l.queue_limits l.max_frames_waiting_for_keyframe;
  consecutive_transport_drops = 0;
  client_ip = client_ip;
}

abbrev pub startup : Sinks → ℕ → StreamState → Outside → Sending
startup accepts sink state o =
    send_all accepts gop_kind sink state.gop_cache.frames
      (send_all accepts header_kind sink (startup_metadata_and_headers state) (0, o))

unfoldable pub subscribe : Sinks → ℕ → ℕ → ℕ → List ℕ → LiveFanout → LiveFanout
subscribe accepts stream_id subscriber_id sink client_ip l =
    let state = state_for stream_id l in
    let entered : StreamState = record state {
      subscribers = emplace subscriber_id (new_subscriber sink client_ip l) state.subscribers;
    } in
    let (egress, o) = startup accepts sink state l.outside in
    let (state', o') = count_egress egress entered o in
    record l {
      streams = set ◌==◌ stream_id state' l.streams;
      outside = call (subscribed stream_id) (count viewer_counted o');
    }

abbrev pub disconnect_counted : Metrics → Metrics
disconnect_counted m = record m {
  active_viewers = minus m.active_viewers 1;
  viewer_disconnects = plus m.viewer_disconnects 1;
}

unfoldable pub leave : ℕ → ℕ → StreamState → LiveFanout → LiveFanout
leave stream_id subscriber_id state l = elim (lookup ◌==◌ subscriber_id state.subscribers) [
  | none ↦ l
  | some sub ↦ record l {
    streams =
        set ◌==◌ stream_id
          (record state { subscribers = remove ◌==◌ subscriber_id state.subscribers }) l.streams;
    outside = call (unsubscribed stream_id) (count disconnect_counted l.outside);
  }
]

unfoldable pub unsubscribe : ℕ → ℕ → LiveFanout → LiveFanout
unsubscribe stream_id subscriber_id l = elim (lookup ◌==◌ stream_id l.streams) [
  | none ↦ l
  | some state ↦ leave stream_id subscriber_id state l
]

unfoldable pub stop_all : Subscribers → Outside → Outside
stop_all [] o = o
stop_all ((id, sub) ∷ rest) o = stop_all rest (call (stopped sub.sink) o)

-- `viewers` is a signed number there; no table has 2 ^ 63 entries.
abbrev pub viewers_gone : ℕ → Metrics → Metrics
viewers_gone viewers m =
    if ltb 0 viewers
    then record m {
      active_viewers = minus m.active_viewers viewers;
      viewer_disconnects = plus m.viewer_disconnects viewers;
    }
    else m

abbrev pub stop_counted : ℕ → Metrics → Metrics
stop_counted viewers m =
    viewers_gone viewers (record m { publisher_disconnects = plus m.publisher_disconnects 1 })

unfoldable pub publisher_stopped : ℕ → Bool → LiveFanout → LiveFanout
publisher_stopped stream_id is_replayed l = elim (lookup ◌==◌ stream_id l.streams) [
  | none ↦ l
  | some removed ↦
      let o =
        count (stop_counted (length removed.subscribers))
          (stop_all removed.subscribers l.outside) in
      record l {
        streams = remove ◌==◌ stream_id l.streams;
        outside = if is_replayed then o else call (ended stream_id) o;
      }
]
