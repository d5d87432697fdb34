-- ===== src/LiveFanout/State.antt =====
-- What include/rtmp_server/protocol/commands/live_fanout.hpp keeps, and what it calls.
use rtmp_core.Base.{ℕ, ◌+◌, ◌-◌, ◌%◌, ◌^◌, Bool, Option, none, some, List, [], ◌∷◌, ◌++◌}
use rtmp_core.Base.Table.{Table}
use rtmp_core.Playback.GopCache.{SharedMediaFrame, GopLimits, GopCache, empty_cache}
use rtmp_core.Playback.ViewerQueue.{QueueLimits, ViewerQueue}

pub data MediaKind : Type 0 where
  audio video metadata : MediaKind

-- A call of a sink (the sink first), or of one of the three hooks (the stream first). A hook that is
-- not set is one whose calls go nowhere.
pub data Call : Type 0 where
  sent : MediaKind → ℕ → SharedMediaFrame → Call
  evicted : ℕ → Call
  stopped : ℕ → Call
  forwarded : ℕ → SharedMediaFrame → MediaKind → Bool → Bool → Call
  subscribed : ℕ → Call
  unsubscribed : ℕ → Call
  ended : ℕ → Call

-- What LiveFanout reports to observability::Metrics. active_viewers is the 64 bits of a signed number.
pub record Metrics : Type 0 where
  pub dropped_video_frames : ℕ
  pub dropped_audio_frames : ℕ
  pub slow_viewer_recoveries : ℕ
  pub slow_viewer_evictions : ℕ
  pub viewer_disconnects : ℕ
  pub publisher_disconnects : ℕ
  pub active_viewers : ℕ
  pub egress_bytes_total : ℕ
  pub gop_cache_bytes : ℕ
  pub gop_cache_packets : ℕ
  pub outbound_queue_bytes : ℕ
  pub outbound_queue_packets : ℕ
  pub viewers_per_stream : List ℕ

-- `metrics_` may be null. The calls are listed first call first.
pub record Outside : Type 0 where
  pub metrics : Option Metrics
  pub calls : List Call

-- The answer of a sink to the latest call of this list, which may depend on all calls before it.
abbrev pub Sinks : Type 0
Sinks = List Call → Bool

abbrev pub on_metrics : (Metrics → Metrics) → Option Metrics → Option Metrics
on_metrics f none = none
on_metrics f (some m) = some (f m)

abbrev pub count : (Metrics → Metrics) → Outside → Outside
count f o = record o { metrics = on_metrics f o.metrics }

abbrev pub call : Call → Outside → Outside
call c o = record o { calls = o.calls ++ c ∷ [] }

abbrev pub plus : ℕ → ℕ → ℕ
plus a b = (a + b) % 2 ^ 64

abbrev pub minus : ℕ → ℕ → ℕ
minus a b = (a + 2 ^ 64 - b % 2 ^ 64) % 2 ^ 64

abbrev pub drop_counted : MediaKind → Metrics → Metrics
drop_counted video m = record m { dropped_video_frames = plus m.dropped_video_frames 1 }
drop_counted audio m = record m { dropped_audio_frames = plus m.dropped_audio_frames 1 }
drop_counted metadata m = m

abbrev pub recovery_counted : Metrics → Metrics
recovery_counted m = record m { slow_viewer_recoveries = plus m.slow_viewer_recoveries 1 }

abbrev pub eviction_counted : Metrics → Metrics
eviction_counted m = record m {
  slow_viewer_evictions = plus m.slow_viewer_evictions 1;
  viewer_disconnects = plus m.viewer_disconnects 1;
  active_viewers = minus m.active_viewers 1;
}

pub record Subscriber : Type 0 where
  pub sink : ℕ
  pub queue : ViewerQueue
  pub consecutive_transport_drops : ℕ
  pub client_ip : List ℕ

abbrev pub Subscribers : Type 0
Subscribers = Table ℕ Subscriber

pub record StreamState : Type 0 where
  pub metadata_frame : Option SharedMediaFrame
  pub video_sequence_header : Option SharedMediaFrame
  pub audio_sequence_header : Option SharedMediaFrame
  pub gop_cache : GopCache
  pub subscribers : Subscribers
  pub egress_bytes_total : ℕ

abbrev pub new_state : GopLimits → StreamState
new_state limits = record {
  metadata_frame = none;
  video_sequence_header = none;
  audio_sequence_header = none;
  gop_cache = empty_cache limits;
  subscribers = [];
  egress_bytes_total = 0;
}

pub record LiveFanout : Type 0 where
  pub gop_limits : GopLimits
  pub queue_limits : QueueLimits
  pub max_frames_waiting_for_keyframe : ℕ
  pub streams : Table ℕ StreamState
  pub outside : Outside
