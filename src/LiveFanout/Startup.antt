-- ===== src/LiveFanout/Startup.antt =====
-- What a new viewer gets (src/protocol/commands/live_fanout.cpp, subscribe), and the cache it comes from
-- (include/rtmp_server/protocol/commands/gop_cache.hpp).
pub mod Headers
use rtmp_core.Base.{
  ℕ, ◌≡◌, refl, sym, ap, ◌∙◌, inl, inr, Bool, true, false, Option, none, List, ltb, [], ◌∷◌, ◌++◌,
  append-nil, append_assoc, arith, ◌==◌, ==_iff, if◌then◌else◌, Bool-cases,
}
use mathlib.Core.Path.{subst}
use rtmp_core.Base.Table.{lookup, lookup-set}
use rtmp_core.Playback.GopCache.{SharedMediaFrame, GopLimits, GopCache, empty_cache}
use rtmp_core.Playback.GopCache.History.{Event, keyframe, after, since_keyframe, Whole, after-Whole}
use rtmp_core.LiveFanout.State.{
  MediaKind, Call, sent, subscribed, Outside, Sinks, StreamState, LiveFanout,
}
use rtmp_core.LiveFanout.Dispatch.{Incoming, Delivery, dispatch_locked}
use rtmp_core.LiveFanout.Deliveries.{Sending, send, count_egress, run_deliveries}
use rtmp_core.LiveFanout.Classify.{
  classify_is_video_sequence_header, classify_is_video_keyframe, classify_is_audio_sequence_header,
}
use rtmp_core.LiveFanout.{
  state_for, publish, cache_video, cache_audio, cache_metadata, on_video, on_audio, on_metadata,
  gop_kind, header_kind, startup_metadata_and_headers, send_all, subscribe,
}

-- The frames that a publisher sends on one stream.
pub data Frame : Type 0 where
  video_frame audio_frame metadata_frame : SharedMediaFrame → Frame

abbrev pub publish_one : Sinks → ℕ → Frame → LiveFanout → LiveFanout
publish_one accepts stream_id (video_frame f) l = on_video accepts stream_id f false l
publish_one accepts stream_id (audio_frame f) l = on_audio accepts stream_id f false l
publish_one accepts stream_id (metadata_frame f) l = on_metadata accepts stream_id f false l

unfoldable pub publish_all : Sinks → ℕ → List Frame → LiveFanout → LiveFanout
publish_all accepts stream_id [] l = l
publish_all accepts stream_id (f ∷ fs) l =
    publish_all accepts stream_id fs (publish_one accepts stream_id f l)

-- What a frame is for the cache: sequence headers and metadata do not enter it.
unfoldable pub event_of : Frame → List Event
event_of (video_frame f) =
    if classify_is_video_sequence_header f
    then []
    else if classify_is_video_keyframe f
    then keyframe f ∷ []
    else Event.frame f ∷ []
event_of (audio_frame f) = if classify_is_audio_sequence_header f then [] else Event.frame f ∷ []
event_of (metadata_frame f) = []

-- The latest first.
unfoldable pub history_of : List Frame → List Event → List Event
history_of [] earlier = earlier
history_of (f ∷ fs) earlier = history_of fs (event_of f ++ earlier)

-- What a stream keeps beside its viewers and its count of bytes.
abbrev pub Content : Type 0
Content = Option SharedMediaFrame × Option SharedMediaFrame × Option SharedMediaFrame × GopCache

abbrev pub content : StreamState → Content
content s = (s.metadata_frame, s.video_sequence_header, s.audio_sequence_header, s.gop_cache)

count_egress-content :
    (egress : ℕ) (state : StreamState) (o : Outside)
    → content (count_egress egress state o).0 ≡ content state
unfolding count_egress
count_egress-content egress state o = elim (Bool-cases (ltb 0 egress)) [
  | inl there ↦ rw there refl
  | inr nothing ↦ rw nothing refl
]

run_deliveries-content :
    (accepts : Sinks) (max_drops stream_id : ℕ) (deliveries : List Delivery) (state : StreamState)
    (o : Outside)
    → content (run_deliveries accepts max_drops stream_id deliveries state o).0 ≡ content state
unfolding run_deliveries
run_deliveries-content accepts max_drops stream_id deliveries state o = count_egress-content _ _ _

same_id : (k : ℕ) → (k == k) ≡ true
same_id k = (==_iff k k).1 refl

pub publish-content :
    (accepts : Sinks) (f : Incoming) (is_sticky is_replayed : Bool) (state : StreamState)
    (l : LiveFanout)
    → content (state_for f.stream_id (publish accepts f is_sticky is_replayed state l))
      ≡ content state
unfolding publish state_for
publish-content accepts f is_sticky is_replayed state l =
    let (deliveries, dispatched, o) = dispatch_locked state f l.outside in
    let (state', o') =
      run_deliveries accepts l.max_frames_waiting_for_keyframe f.stream_id deliveries dispatched
        o in
    rw (lookup-set ◌==◌ same_id f.stream_id state' l.streams, state_for)
      (run_deliveries-content accepts l.max_frames_waiting_for_keyframe f.stream_id deliveries
        dispatched o)

publish-gop :
    (accepts : Sinks) (f : Incoming) (is_sticky is_replayed : Bool) (state : StreamState)
    (l : LiveFanout)
    → (state_for f.stream_id (publish accepts f is_sticky is_replayed state l)).gop_cache
      ≡ state.gop_cache
publish-gop accepts f is_sticky is_replayed state l =
    ap (λ (c : Content). c.3) (publish-content accepts f is_sticky is_replayed state l)

module _ (limits : GopLimits) where
  cache_video-after :
      (f : SharedMediaFrame) (state : StreamState) (earlier : List Event)
      → state.gop_cache ≡ after earlier limits
      → (cache_video f state).gop_cache ≡ after (event_of (video_frame f) ++ earlier) limits
  unfolding cache_video event_of after
  cache_video-after f state earlier e = elim (Bool-cases (classify_is_video_sequence_header f)) [
    | inl header ↦ rw header e
    | inr media ↦ elim (Bool-cases (classify_is_video_keyframe f)) [
      | inl key ↦ rw (media, key, e) refl
      | inr other ↦ rw (media, other, e) refl
    ]
  ]

  cache_audio-after :
      (f : SharedMediaFrame) (state : StreamState) (earlier : List Event)
      → state.gop_cache ≡ after earlier limits
      → (cache_audio f state).gop_cache ≡ after (event_of (audio_frame f) ++ earlier) limits
  unfolding cache_audio event_of after
  cache_audio-after f state earlier e = elim (Bool-cases (classify_is_audio_sequence_header f)) [
    | inl header ↦ rw header e
    | inr media ↦ rw (media, e) refl
  ]

  publish_one-after :
      (accepts : Sinks) (stream_id : ℕ) (f : Frame) (l : LiveFanout) (earlier : List Event)
      → (state_for stream_id l).gop_cache ≡ after earlier limits
      → (state_for stream_id (publish_one accepts stream_id f l)).gop_cache
        ≡ after (event_of f ++ earlier) limits
  unfolding event_of
  publish_one-after accepts stream_id (video_frame f) l earlier e =
      publish-gop accepts _ _ false (cache_video f (state_for stream_id l)) l
      ∙ cache_video-after f (state_for stream_id l) earlier e
  publish_one-after accepts stream_id (audio_frame f) l earlier e =
      publish-gop accepts _ _ false (cache_audio f (state_for stream_id l)) l
      ∙ cache_audio-after f (state_for stream_id l) earlier e
  publish_one-after accepts stream_id (metadata_frame f) l earlier e =
      publish-gop accepts _ _ false (cache_metadata f (state_for stream_id l)) l ∙ e

  pub publish_all-after :
      (accepts : Sinks) (stream_id : ℕ) (fs : List Frame) (l : LiveFanout) (earlier : List Event)
      → (state_for stream_id l).gop_cache ≡ after earlier limits
      → (state_for stream_id (publish_all accepts stream_id fs l)).gop_cache
        ≡ after (history_of fs earlier) limits
  unfolding publish_all history_of
  publish_all-after accepts stream_id [] l earlier e = e
  publish_all-after accepts stream_id (f ∷ fs) l earlier e =
      publish_all-after accepts stream_id fs (publish_one accepts stream_id f l)
        (event_of f ++ earlier) (publish_one-after accepts stream_id f l earlier e)

abbrev pub sent_all : (SharedMediaFrame → MediaKind) → ℕ → List SharedMediaFrame → List Call
sent_all kind_of sink [] = []
sent_all kind_of sink (f ∷ fs) = sent (kind_of f) sink f ∷ sent_all kind_of sink fs

send_all-calls :
    (accepts : Sinks) (kind_of : SharedMediaFrame → MediaKind) (sink : ℕ)
    (fs : List SharedMediaFrame) (s : Sending)
    → (send_all accepts kind_of sink fs s).1.calls ≡ s.1.calls ++ sent_all kind_of sink fs
unfolding send_all send
send_all-calls accepts kind_of sink [] s = sym (append-nil s.1.calls)
send_all-calls accepts kind_of sink (f ∷ fs) s =
    send_all-calls accepts kind_of sink fs (send accepts (kind_of f) sink f s).1
    ∙ append_assoc s.1.calls (sent (kind_of f) sink f ∷ []) (sent_all kind_of sink fs)

count_egress-calls :
    (egress : ℕ) (state : StreamState) (o : Outside)
    → (count_egress egress state o).1.calls ≡ o.calls
unfolding count_egress
count_egress-calls egress state o = ground arith

pub subscribe-calls :
    (accepts : Sinks) (stream_id subscriber_id sink : ℕ) (client_ip : List ℕ) (l : LiveFanout)
    → let state = state_for stream_id l in
      (subscribe accepts stream_id subscriber_id sink client_ip l).outside.calls
      ≡ l.outside.calls
        ++ (sent_all header_kind sink (startup_metadata_and_headers state)
            ++ (sent_all gop_kind sink state.gop_cache.frames ++ subscribed stream_id ∷ []))
unfolding subscribe
subscribe-calls accepts stream_id subscriber_id sink client_ip l =
    let state = state_for stream_id l in
    let headers = sent_all header_kind sink (startup_metadata_and_headers state) in
    let gop = sent_all gop_kind sink state.gop_cache.frames in
    let last = subscribed stream_id ∷ [] in
    let after_headers =
      send_all accepts header_kind sink (startup_metadata_and_headers state) (0, l.outside) in
    ap (λ cs. cs ++ last)
      (count_egress-calls _ _ _
        ∙ send_all-calls accepts gop_kind sink state.gop_cache.frames after_headers
        ∙ ap (λ cs. cs ++ gop)
            (send_all-calls accepts header_kind sink (startup_metadata_and_headers state)
              (0, l.outside)))
    ∙ append_assoc (l.outside.calls ++ headers) gop last
    ∙ append_assoc l.outside.calls headers (gop ++ last)
