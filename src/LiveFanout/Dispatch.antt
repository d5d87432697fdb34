-- ===== src/LiveFanout/Dispatch.antt =====
-- dispatch_locked (src/protocol/commands/live_fanout.cpp): what becomes of a frame for each viewer.
use rtmp_core.Base.{ℕ, Bool, true, false, Option, none, some, List, [], ◌∷◌, ◌++◌, length}
use rtmp_core.Playback.GopCache.{SharedMediaFrame}
use rtmp_core.Playback.ViewerQueue.{
  QueueBacklog, ViewerQueue, Decision, deliver, deliver_resumed, drop_and_wait, evict, offer,
}
use rtmp_core.LiveFanout.State.{
  MediaKind, audio, video, metadata, unsubscribed, Outside, count, call, drop_counted,
  recovery_counted, eviction_counted, Subscriber, Subscribers, StreamState,
}

-- A frame on its way to a viewer, with the headers that go out again before it.
pub record PendingDelivery : Type 0 where
  pub subscriber_id : ℕ
  pub sink : ℕ
  pub kind : MediaKind
  pub resend_video_seq_header : Option SharedMediaFrame
  pub resend_audio_seq_header : Option SharedMediaFrame
  pub frame : SharedMediaFrame

-- A delivery of the kind Evict has the viewer only.
pub data Delivery : Type 0 where
  media : PendingDelivery → Delivery
  eviction : ℕ → ℕ → Delivery

-- The arguments of dispatch_locked beside the state.
pub record Incoming : Type 0 where
  pub stream_id : ℕ
  pub frame : SharedMediaFrame
  pub kind : MediaKind
  pub is_keyframe : Bool

abbrev pub is_video : MediaKind → Bool
is_video video = true
is_video audio = false
is_video metadata = false

abbrev pub no_backlog : QueueBacklog
no_backlog = record { bytes = 0; packets = 0 }

abbrev pub Each : Type 0
Each = List Delivery × Option Subscriber × Outside

abbrev pub decided :
    StreamState → Incoming → ℕ → Subscriber → Outside → Decision × ViewerQueue → Each
decided state f id sub o (deliver, q) = (
  media (record {
    subscriber_id = id;
    sink = sub.sink;
    kind = f.kind;
    resend_video_seq_header = none;
    resend_audio_seq_header = none;
    frame = f.frame;
  })
      ∷ [],
  some (record sub { queue = q }),
  o,
)
decided state f id sub o (deliver_resumed, q) = (
  media (record {
    subscriber_id = id;
    sink = sub.sink;
    kind = f.kind;
    resend_video_seq_header = state.video_sequence_header;
    resend_audio_seq_header = state.audio_sequence_header;
    frame = f.frame;
  })
      ∷ [],
  some (record sub { queue = q }),
  count recovery_counted o,
)
decided state f id sub o (drop_and_wait, q) =
    ([], some (record sub { queue = q }), count (drop_counted f.kind) o)
decided state f id sub o (evict, q) =
    (eviction id sub.sink ∷ [], none, call (unsubscribed f.stream_id) (count eviction_counted o))

unfoldable pub dispatch_one : StreamState → Incoming → ℕ → Subscriber → Outside → Each
dispatch_one state f id sub o =
    decided state f id sub o
      (offer no_backlog (length f.frame.payload) (is_video f.kind) f.is_keyframe sub.queue)

abbrev pub keep : ℕ → Option Subscriber → Subscribers → Subscribers
keep id none rest = rest
keep id (some sub) rest = (id, sub) ∷ rest

unfoldable pub dispatch_all :
    StreamState → Incoming → Subscribers → Outside → List Delivery × Subscribers × Outside
dispatch_all state f [] o = ([], [], o)
dispatch_all state f ((id, sub) ∷ rest) o =
    let (here, kept, o') = dispatch_one state f id sub o in
    let (later, others, o'') = dispatch_all state f rest o' in
    (here ++ later, keep id kept others, o'')

abbrev pub dispatch_locked :
    StreamState → Incoming → Outside → List Delivery × StreamState × Outside
dispatch_locked state f o =
    let (deliveries, subscribers, o') = dispatch_all state f state.subscribers o in
    (deliveries, record state { subscribers = subscribers }, o')
