-- ===== src/LiveFanout/Viewers.antt =====
-- The calls that one viewer gets for one frame (src/protocol/commands/live_fanout.cpp, dispatch_locked
-- and the first part of run_deliveries).
pub mod Each
pub mod Whole
use rtmp_core.Base.{
  ℕ, ◌≡◌, refl, sym, ap, ◌∙◌, inl, inr, Bool, true, false, Option, none, some, List, [], ◌∷◌, ◌++◌,
  append-nil, append_assoc, All, length, arith, ◌==◌, if◌then◌else◌, Bool-cases,
}
use rtmp_core.Playback.GopCache.{SharedMediaFrame}
use rtmp_core.Playback.ViewerQueue.{
  Decision, ViewerQueue, deliver, deliver_resumed, drop_and_wait, evict, offer,
}
use rtmp_core.LiveFanout.State.{
  MediaKind, audio, video, metadata, Call, sent, evicted, stopped, forwarded, subscribed,
  unsubscribed, ended, Outside, Sinks, call, Subscriber, Subscribers, StreamState,
}
use rtmp_core.LiveFanout.Dispatch.{
  PendingDelivery, Delivery, media, eviction, Incoming, is_video, no_backlog, decided, dispatch_one,
  dispatch_all,
}
use rtmp_core.LiveFanout.Deliveries.{Sending, send, resend, run_delivery, run_each}

abbrev pub is_for : ℕ → Call → Bool
is_for sink (sent kind s frame) = s == sink
is_for sink (evicted s) = s == sink
is_for sink (stopped s) = s == sink
is_for sink (forwarded stream_id frame kind is_sticky is_keyframe) = false
is_for sink (subscribed stream_id) = false
is_for sink (unsubscribed stream_id) = false
is_for sink (ended stream_id) = false

-- The calls of one sink, in their order.
unfoldable pub calls_for : ℕ → List Call → List Call
calls_for sink [] = []
calls_for sink (c ∷ cs) = let rest = calls_for sink cs in if is_for sink c then c ∷ rest else rest

abbrev pub header_calls : MediaKind → ℕ → Option SharedMediaFrame → List Call
header_calls kind sink none = []
header_calls kind sink (some header) = sent kind sink header ∷ []

-- What a viewer is to get on this decision: a viewer that resumes gets the sequence headers that the
-- stream has, the video's first, and then the frame.
abbrev pub due : StreamState → Incoming → ℕ → Decision → List Call
due state f sink deliver = sent f.kind sink f.frame ∷ []
due state f sink deliver_resumed =
    header_calls video sink state.video_sequence_header
    ++ (header_calls audio sink state.audio_sequence_header ++ sent f.kind sink f.frame ∷ [])
due state f sink drop_and_wait = []
due state f sink evict = evicted sink ∷ []

abbrev pub decision : Incoming → Subscriber → Decision
decision f sub =
    (offer no_backlog (length f.frame.payload) (is_video f.kind) f.is_keyframe sub.queue).0

abbrev pub planned : Delivery → List Call
planned (media d) =
    header_calls video d.sink d.resend_video_seq_header
    ++ (header_calls audio d.sink d.resend_audio_seq_header ++ sent d.kind d.sink d.frame ∷ [])
planned (eviction id sink) = evicted sink ∷ []

abbrev pub planned_all : List Delivery → List Call
planned_all [] = []
planned_all (d ∷ ds) = planned d ++ planned_all ds

pub calls_for-append :
    (sink : ℕ) (xs ys : List Call)
    → calls_for sink (xs ++ ys) ≡ calls_for sink xs ++ calls_for sink ys
unfolding calls_for
calls_for-append sink [] ys = refl
calls_for-append sink (c ∷ cs) ys = elim (Bool-cases (is_for sink c)) [
  | inl mine ↦ rw mine (ap (◌∷◌ c) (calls_for-append sink cs ys))
  | inr other ↦ rw other (calls_for-append sink cs ys)
]

pub planned_all-append :
    (ds es : List Delivery) → planned_all (ds ++ es) ≡ planned_all ds ++ planned_all es
planned_all-append [] es = refl
planned_all-append (d ∷ ds) es =
    ap (◌++◌ (planned d)) (planned_all-append ds es)
    ∙ sym (append_assoc (planned d) (planned_all ds) (planned_all es))

resend-calls :
    (accepts : Sinks) (kind : MediaKind) (sink : ℕ) (header : Option SharedMediaFrame) (s : Sending)
    → (resend accepts kind sink header s).1.calls ≡ s.1.calls ++ header_calls kind sink header
unfolding send
resend-calls accepts kind sink none s = sym (append-nil s.1.calls)
resend-calls accepts kind sink (some frame) s = refl

run_delivery-calls :
    (accepts : Sinks) (d : PendingDelivery) (s : Sending)
    → (run_delivery accepts d s).1.1.calls ≡ s.1.calls ++ planned (media d)
unfolding run_delivery send
run_delivery-calls accepts d s =
    let v = header_calls video d.sink d.resend_video_seq_header in
    let a = header_calls audio d.sink d.resend_audio_seq_header in
    let last = sent d.kind d.sink d.frame ∷ [] in
    let s' = resend accepts video d.sink d.resend_video_seq_header s in
    ap (λ cs. cs ++ last)
      (resend-calls accepts audio d.sink d.resend_audio_seq_header s'
        ∙ ap (λ cs. cs ++ a) (resend-calls accepts video d.sink d.resend_video_seq_header s))
    ∙ append_assoc (s.1.calls ++ v) a last
    ∙ append_assoc s.1.calls v (a ++ last)

pub run_each-calls :
    (accepts : Sinks) (ds : List Delivery) (s : Sending)
    → (run_each accepts ds s).1.1.calls ≡ s.1.calls ++ planned_all ds
unfolding run_each
run_each-calls accepts [] s = sym (append-nil s.1.calls)
run_each-calls accepts (media d ∷ rest) s =
    run_each-calls accepts rest (run_delivery accepts d s).1
    ∙ ap (λ cs. cs ++ planned_all rest) (run_delivery-calls accepts d s)
    ∙ append_assoc s.1.calls (planned (media d)) (planned_all rest)
run_each-calls accepts (eviction id sink ∷ rest) (egress, o) =
    run_each-calls accepts rest (egress, call (evicted sink) o)
    ∙ append_assoc o.calls (evicted sink ∷ []) (planned_all rest)

-- A dispatch itself calls no sink.
decided-calls :
    (state : StreamState) (f : Incoming) (id : ℕ) (sub : Subscriber) (o : Outside) (sink : ℕ)
    (d : Decision × ViewerQueue)
    → calls_for sink (decided state f id sub o d).2.calls ≡ calls_for sink o.calls
unfolding calls_for
decided-calls state f id sub o sink (deliver, q) = refl
decided-calls state f id sub o sink (deliver_resumed, q) = refl
decided-calls state f id sub o sink (drop_and_wait, q) = refl
decided-calls state f id sub o sink (evict, q) =
    calls_for-append sink o.calls (unsubscribed f.stream_id ∷ [])
    ∙ append-nil (calls_for sink o.calls)

pub dispatch_all-calls :
    (state : StreamState) (f : Incoming) (subs : Subscribers) (o : Outside) (sink : ℕ)
    → calls_for sink (dispatch_all state f subs o).2.calls ≡ calls_for sink o.calls
unfolding dispatch_all dispatch_one
dispatch_all-calls state f [] o sink = refl
dispatch_all-calls state f ((id, sub) ∷ rest) o sink =
    dispatch_all-calls state f rest (dispatch_one state f id sub o).2 sink
    ∙ decided-calls state f id sub o sink _

pub decided-planned :
    (state : StreamState) (f : Incoming) (id : ℕ) (sub : Subscriber) (o : Outside)
    (d : Decision × ViewerQueue)
    → planned_all (decided state f id sub o d).0 ≡ due state f sub.sink d.0
decided-planned state f id sub o (deliver, q) = refl
decided-planned state f id sub o (deliver_resumed, q) = append-nil _
decided-planned state f id sub o (drop_and_wait, q) = refl
decided-planned state f id sub o (evict, q) = refl
