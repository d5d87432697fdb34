-- ===== src/LiveFanout/Tests.antt =====
-- Viewers of one stream at concrete frames (src/protocol/commands/live_fanout.cpp).
use rtmp_core.Base.{ℕ, ◌≡◌, refl, List, [], ◌∷◌, ◌++◌, true, false, none, some}
use rtmp_core.Base.Table.{lookup, set, total}
use rtmp_core.Core.ByteOrder.{read_u32_be}
use rtmp_core.Media.Ingest.Tags.{classify_video_tag, classify_audio_tag}
use rtmp_core.Playback.GopCache.{SharedMediaFrame}
use rtmp_core.Playback.GopCache.History.{Whole, since_keyframe}
use rtmp_core.Playback.ViewerQueue.{new_queue}
use rtmp_core.LiveFanout.State.{
  Sinks, Call, Metrics, Subscriber, StreamState, new_state, LiveFanout, video, audio, metadata,
  subscribed,
}
use rtmp_core.LiveFanout.Dispatch.{Incoming, dispatch_locked}
use rtmp_core.LiveFanout.Deliveries.{run_deliveries, count_egress}
use rtmp_core.LiveFanout.{emplace, send_all, state_for, subscribe}
use rtmp_core.LiveFanout.Classify.{
  classify_is_video_keyframe, classify_is_video_sequence_header, classify_is_audio_sequence_header,
}
use rtmp_core.LiveFanout.Gauge.Steps.{Exact}
use rtmp_core.LiveFanout.Gauge.Runs.{
  step, Operation, join, part, stop, sample, video_frame, run_all, run_all-Exact,
}
use rtmp_core.LiveFanout.Viewers.{calls_for, header_calls, due, decision}
use rtmp_core.LiveFanout.Viewers.Whole.{Tail, run_deliveries-dispatch_locked}
use rtmp_core.LiveFanout.Startup as Startup
use rtmp_core.LiveFanout.Startup.{Frame, sent_all, publish_all, history_of}
use rtmp_core.LiveFanout.Startup.Headers.{
  IsPlain, metadata_of, video_header_of, audio_header_of, latest, kind_by_type,
  subscribe-publish_all,
}

abbrev no_counts : Metrics
no_counts = record {
  dropped_video_frames = 0;
  dropped_audio_frames = 0;
  slow_viewer_recoveries = 0;
  slow_viewer_evictions = 0;
  viewer_disconnects = 0;
  publisher_disconnects = 0;
  active_viewers = 0;
  egress_bytes_total = 0;
  gop_cache_bytes = 0;
  gop_cache_packets = 0;
  outbound_queue_bytes = 0;
  outbound_queue_packets = 0;
  viewers_per_stream = [];
}

abbrev fanout : LiveFanout
fanout = record {
  gop_limits = record { max_bytes = 1000; max_packets = 100; max_duration = 0 };
  queue_limits = record { max_bytes = 1000; max_packets = 100 };
  max_frames_waiting_for_keyframe = 2;
  streams = [];
  outside = record { metrics = some no_counts; calls = [] };
}

-- Sinks that take everything, and sinks that take nothing.
abbrev taking : Sinks
taking calls = true

abbrev refusing : Sinks
refusing calls = false

abbrev key : SharedMediaFrame
key = record { payload = 0x17 ∷ 1 ∷ 0 ∷ 0 ∷ 0 ∷ 1 ∷ []; message_type_id = 9; timestamp = 0 }

abbrev inter : SharedMediaFrame
inter = record { payload = 0x27 ∷ 1 ∷ 0 ∷ 0 ∷ 0 ∷ 2 ∷ []; message_type_id = 9; timestamp = 40 }

-- Two viewers join, three frames are refused by both, and the publisher stops.
abbrev operations : List Operation
operations =
    join 1 10 100 []
    ∷ join 1 11 101 []
    ∷ video_frame 1 key false
    ∷ video_frame 1 inter false
    ∷ video_frame 1 inter false
    ∷ part 1 10
    ∷ stop 1 false
    ∷ sample
    ∷ []

run_all-Exact_example : Exact (run_all refusing operations fanout)
unfolding lookup set total state_for step subscribe count_egress send_all emplace
run_all-Exact_example =
    run_all-Exact refusing operations fanout (refl, (refl, (tt, (tt, (tt, (tt, (tt, (tt, tt))))))))
      refl

abbrev viewer : ℕ → Subscriber
viewer sink = record {
  sink = sink;
  queue = new_queue (record { max_bytes = 1000; max_packets = 100 }) 2;
  consecutive_transport_drops = 0;
  client_ip = [];
}

abbrev opened : StreamState
opened = new_state fanout.gop_limits

abbrev incoming : Incoming
incoming = record { stream_id = 1; frame = key; kind = video; is_keyframe = true }

abbrev watched : StreamState
watched = record opened {
  subscribers = (10, viewer 100) ∷ (11, viewer 101) ∷ (12, viewer 102) ∷ [];
}

run_deliveries-dispatch_locked_example :
    let (deliveries, dispatched, o') = dispatch_locked watched incoming fanout.outside in
    let (_, o'') = run_deliveries refusing 0 1 deliveries dispatched o' in
    (tail : List Call) × Tail (decision incoming (viewer 101)) 101 tail
    × (calls_for 101 o''.calls
        ≡ calls_for 101 fanout.outside.calls
          ++ (due watched incoming 101 (decision incoming (viewer 101)) ++ tail))
run_deliveries-dispatch_locked_example =
    run_deliveries-dispatch_locked watched incoming refusing 0 11 (viewer 101)
      ((10, viewer 100) ∷ []) ((12, viewer 102) ∷ []) fanout.outside refl (refl, tt) (refl, tt)

abbrev header : SharedMediaFrame
header = record { payload = 0x17 ∷ 0 ∷ 0 ∷ 0 ∷ 0 ∷ 1 ∷ []; message_type_id = 9; timestamp = 0 }

abbrev audio_header : SharedMediaFrame
audio_header = record { payload = 0xAF ∷ 0 ∷ 0x12 ∷ 0x10 ∷ []; message_type_id = 8; timestamp = 0 }

abbrev on_meta_data : SharedMediaFrame
on_meta_data = record { payload = 2 ∷ 0 ∷ 10 ∷ []; message_type_id = 18; timestamp = 0 }

abbrev sent_before : List Frame
sent_before =
    Startup.metadata_frame on_meta_data
    ∷ Startup.video_frame header
    ∷ Startup.audio_frame audio_header
    ∷ Startup.video_frame key
    ∷ Startup.video_frame inter
    ∷ []

on_meta_data-IsPlain : IsPlain on_meta_data
unfolding classify_is_video_sequence_header classify_is_audio_sequence_header classify_video_tag
    classify_audio_tag
on_meta_data-IsPlain = (refl, refl)

subscribe-publish_all_example :
    let l = publish_all taking 1 sent_before fanout in
    (frames : List SharedMediaFrame) × Whole frames (since_keyframe (history_of sent_before []))
    × ((subscribe taking 1 10 100 [] l).outside.calls
        ≡ l.outside.calls
          ++ ((header_calls metadata 100 (latest metadata_of sent_before none)
                ++ (header_calls video 100 (latest video_header_of sent_before none)
                    ++ header_calls audio 100 (latest audio_header_of sent_before none)))
              ++ (sent_all kind_by_type 100 frames ++ subscribed 1 ∷ [])))
unfolding lookup
subscribe-publish_all_example =
    subscribe-publish_all taking 1 10 100 [] sent_before fanout refl
      (on_meta_data-IsPlain, (tt, (tt, (tt, (tt, tt)))))

-- The configuration of an Enhanced RTMP HEVC stream (FourCC hvc1, PacketTypeSequenceStart) is taken for
-- a keyframe, and not for a sequence header.
abbrev hevc_start : SharedMediaFrame
hevc_start = record {
  payload = 0x90 ∷ 0x68 ∷ 0x76 ∷ 0x63 ∷ 0x31 ∷ 1 ∷ [];
  message_type_id = 9;
  timestamp = 0;
}

hevc_start-keyframe :
    (classify_is_video_keyframe hevc_start ≡ true)
    × (classify_is_video_sequence_header hevc_start ≡ false)
unfolding classify_is_video_keyframe classify_is_video_sequence_header classify_video_tag
    read_u32_be
hevc_start-keyframe = (refl, refl)
