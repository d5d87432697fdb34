-- ===== src/LiveFanout/Gauge/Steps.antt =====
-- The gauge active_viewers through every operation (src/protocol/commands/live_fanout.cpp).
use rtmp_core.Base.{
  ℕ, suc, ◌+◌, ◌-◌, ◌≡◌, refl, sym, ap, ◌∙◌, inl, inr, Bool, Option, none, some, List, [], ◌∷◌,
  length, arith, ◌==◌, Bool-cases, Option-cases,
}
use mathlib.Core.Path.{subst}
use rtmp_core.Base.Table.{
  lookup, set, remove, total, total-set_new, total-set_old, total-remove, length-set_new,
  length-remove,
}
use rtmp_core.Playback.GopCache.{SharedMediaFrame}
use rtmp_core.LiveFanout.State.{
  MediaKind, Outside, Sinks, Metrics, call, on_metrics, stopped, Subscriber, Subscribers,
  StreamState, LiveFanout,
}
use rtmp_core.LiveFanout.Dispatch.{Incoming, dispatch_all}
use rtmp_core.LiveFanout.Deliveries.{Sending, send, count_egress, run_deliveries}
use rtmp_core.LiveFanout.Gauge.{Shows, dispatch_all-Shows, run_deliveries-Shows, count_egress-Shows}
use rtmp_core.LiveFanout.Observe.{gauges_set, sample_gauges, subscribers_of}
use rtmp_core.LiveFanout.{
  state_for, publish, cache_video, cache_audio, gop_kind, header_kind, startup_metadata_and_headers,
  send_all, emplace, new_subscriber, startup, subscribe, viewer_counted, disconnect_counted, leave,
  unsubscribe, stop_all, stop_counted, publisher_stopped,
}

-- All viewers of all streams.
abbrev pub viewers : LiveFanout → ℕ
viewers l = total ◌==◌ subscribers_of l.streams

-- The gauge shows how many there are.
abbrev pub Exact : LiveFanout → Type 0
Exact l = Shows (viewers l) l.outside.metrics

-- One stream's entry and the viewers of the other streams.
beside :
    (stream_id : ℕ) (l : LiveFanout)
    → (n : ℕ) × ((viewers l ≡ length (state_for stream_id l).subscribers + n)
        × ((state : StreamState)
            → total ◌==◌ subscribers_of (set ◌==◌ stream_id state l.streams)
              ≡ length state.subscribers + n))
unfolding state_for
beside stream_id l = elim (Option-cases (lookup ◌==◌ stream_id l.streams)) [
  | inl absent ↦ (
    viewers l,
    (
      rw (absent, state_for) (omega arith),
      λ state. omega (arith, total-set_new ◌==◌ subscribers_of stream_id state l.streams absent),
    ),
  )
  | inr (old, there) ↦ (
    viewers l - length old.subscribers,
    (
      rw (there, state_for)
          (omega (arith, total-remove ◌==◌ subscribers_of stream_id old l.streams there)),
      λ state. omega (
        arith,
        total-remove ◌==◌ subscribers_of stream_id old l.streams there,
        total-set_old ◌==◌ subscribers_of stream_id state old l.streams there,
      ),
    ),
  )
]

pub publish-Exact :
    (accepts : Sinks) (f : Incoming) (is_sticky is_replayed : Bool) (state : StreamState)
    (l : LiveFanout)
    → state.subscribers ≡ (state_for f.stream_id l).subscribers
    → Exact l
    → Exact (publish accepts f is_sticky is_replayed state l)
unfolding publish
publish-Exact accepts f is_sticky is_replayed state l same h =
    let id = f.stream_id in
    let max_drops = l.max_frames_waiting_for_keyframe in
    let (n, (before, entered)) = beside id l in
    let (deliveries, left, o) = dispatch_all state f state.subscribers l.outside in
    let dispatched : StreamState = record state { subscribers = left } in
    let (state', o') = run_deliveries accepts max_drops id deliveries dispatched o in
    let start : Shows (length state.subscribers + n) l.outside.metrics =
      subst (λ k. Shows k l.outside.metrics)
        (before ∙ ap (λ (subs : Subscribers). length subs + n) (sym same)) h in
    let through =
      run_deliveries-Shows accepts max_drops id deliveries dispatched o n
        (dispatch_all-Shows state f state.subscribers l.outside n start) in
    let done : Shows (total ◌==◌ subscribers_of (set ◌==◌ id state' l.streams)) o'.metrics =
      subst (λ k. Shows k o'.metrics) (sym (entered state')) through in
    elim (Bool-cases is_replayed) [
      | inl replayed ↦ rw (replayed, publish) done
      | inr local ↦ rw (local, publish) done
    ]

pub cache_video-subscribers :
    (frame : SharedMediaFrame) (state : StreamState)
    → (cache_video frame state).subscribers ≡ state.subscribers
unfolding cache_video
cache_video-subscribers frame state = ground arith

pub cache_audio-subscribers :
    (frame : SharedMediaFrame) (state : StreamState)
    → (cache_audio frame state).subscribers ≡ state.subscribers
unfolding cache_audio
cache_audio-subscribers frame state = ground arith

send_all-metrics :
    (accepts : Sinks) (kind_of : SharedMediaFrame → MediaKind) (sink : ℕ)
    (frames : List SharedMediaFrame) (s : Sending)
    → (send_all accepts kind_of sink frames s).1.metrics ≡ s.1.metrics
unfolding send_all send
send_all-metrics accepts kind_of sink [] s = refl
send_all-metrics accepts kind_of sink (frame ∷ rest) s =
    send_all-metrics accepts kind_of sink rest (send accepts (kind_of frame) sink frame s).1

Shows-viewer :
    (n : ℕ) (metrics : Option Metrics)
    → Shows n metrics
    → Shows (suc n) (on_metrics viewer_counted metrics)
Shows-viewer n none h = tt
Shows-viewer n (some m) h = omega (arith, h)

Shows-disconnect :
    (n : ℕ) (metrics : Option Metrics)
    → Shows (suc n) metrics
    → Shows n (on_metrics disconnect_counted metrics)
Shows-disconnect n none h = tt
Shows-disconnect n (some m) h = omega (arith, h)

Shows-stop :
    (n k : ℕ) (metrics : Option Metrics)
    → Shows (n + k) metrics
    → Shows n (on_metrics (stop_counted k) metrics)
Shows-stop n k none h = tt
Shows-stop n k (some m) h = ground (arith, h)

-- The id of a new viewer is not in use on its stream.
abbrev pub Unused : ℕ → ℕ → LiveFanout → Type 0
Unused stream_id subscriber_id l =
    lookup ◌==◌ subscriber_id (state_for stream_id l).subscribers ≡ none

length-emplace :
    (id : ℕ) (sub : Subscriber) (subs : Subscribers)
    → lookup ◌==◌ id subs ≡ none
    → length (emplace id sub subs) ≡ length subs + 1
unfolding emplace
length-emplace id sub subs e = rw (e, emplace) (length-set_new ◌==◌ id sub subs e)

pub subscribe-Exact :
    (accepts : Sinks) (stream_id subscriber_id sink : ℕ) (client_ip : List ℕ) (l : LiveFanout)
    → Unused stream_id subscriber_id l
    → Exact l
    → Exact (subscribe accepts stream_id subscriber_id sink client_ip l)
unfolding subscribe
subscribe-Exact accepts stream_id subscriber_id sink client_ip l unused h =
    let (n, (before, entered)) = beside stream_id l in
    let state = state_for stream_id l in
    let subs = emplace subscriber_id (new_subscriber sink client_ip l) state.subscribers in
    let joined : StreamState = record state { subscribers = subs } in
    let (egress, o) = startup accepts sink state l.outside in
    let (state', o') = count_egress egress joined o in
    let quiet : o.metrics ≡ l.outside.metrics =
      send_all-metrics accepts gop_kind sink state.gop_cache.frames _
      ∙ send_all-metrics accepts header_kind sink (startup_metadata_and_headers state)
          (0, l.outside) in
    let start : Shows (length state.subscribers + n) o.metrics =
      subst (Shows (length state.subscribers + n)) (sym quiet)
        (subst (λ k. Shows k l.outside.metrics) before h) in
    let (shown, same) = count_egress-Shows egress joined o (length state.subscribers + n) start in
    let longer : length subs ≡ length state.subscribers + 1 =
      length-emplace subscriber_id (new_subscriber sink client_ip l) state.subscribers unused in
    let size : suc (length state.subscribers + n)
        ≡ total ◌==◌ subscribers_of (set ◌==◌ stream_id state' l.streams) =
      omega (arith, longer, entered state', ap length same) in
    subst (λ k. Shows k (on_metrics viewer_counted o'.metrics)) size
      (Shows-viewer (length state.subscribers + n) o'.metrics shown)

leave-Exact :
    (stream_id subscriber_id : ℕ) (state : StreamState) (l : LiveFanout)
    → lookup ◌==◌ stream_id l.streams ≡ some state
    → Exact l
    → Exact (leave stream_id subscriber_id state l)
unfolding leave
leave-Exact stream_id subscriber_id state l there h =
    elim (Option-cases (lookup ◌==◌ subscriber_id state.subscribers)) [
      | inl gone ↦ rw (gone, leave) h
      | inr (sub, found) ↦
          let state' : StreamState = record state {
            subscribers = remove ◌==◌ subscriber_id state.subscribers;
          } in
          let after = total ◌==◌ subscribers_of (set ◌==◌ stream_id state' l.streams) in
          let fewer : viewers l ≡ suc after = omega (
            arith,
            total-set_old ◌==◌ subscribers_of stream_id state' state l.streams there,
            length-remove ◌==◌ subscriber_id sub state.subscribers found,
          ) in
          rw (found, leave)
            (Shows-disconnect after l.outside.metrics
              (subst (λ k. Shows k l.outside.metrics) fewer h))
    ]

pub unsubscribe-Exact :
    (stream_id subscriber_id : ℕ) (l : LiveFanout)
    → Exact l
    → Exact (unsubscribe stream_id subscriber_id l)
unfolding unsubscribe
unsubscribe-Exact stream_id subscriber_id l h =
    elim (Option-cases (lookup ◌==◌ stream_id l.streams)) [
      | inl absent ↦ rw (absent, unsubscribe) h
      | inr (state, there) ↦
          rw (there, unsubscribe) (leave-Exact stream_id subscriber_id state l there h)
    ]

stop_all-metrics :
    (subscribers : Subscribers) (o : Outside) → (stop_all subscribers o).metrics ≡ o.metrics
unfolding stop_all
stop_all-metrics [] o = refl
stop_all-metrics ((id, sub) ∷ rest) o = stop_all-metrics rest (call (stopped sub.sink) o)

pub publisher_stopped-Exact :
    (stream_id : ℕ) (is_replayed : Bool) (l : LiveFanout)
    → Exact l
    → Exact (publisher_stopped stream_id is_replayed l)
unfolding publisher_stopped
publisher_stopped-Exact stream_id is_replayed l h =
    elim (Option-cases (lookup ◌==◌ stream_id l.streams)) [
      | inl absent ↦ rw (absent, publisher_stopped) h
      | inr (removed, there) ↦
          let o = stop_all removed.subscribers l.outside in
          let after = total ◌==◌ subscribers_of (remove ◌==◌ stream_id l.streams) in
          let size : viewers l ≡ after + length removed.subscribers =
            sym (total-remove ◌==◌ subscribers_of stream_id removed l.streams there) in
          let before : Shows (after + length removed.subscribers) o.metrics =
            subst (Shows (after + length removed.subscribers))
              (sym (stop_all-metrics removed.subscribers l.outside))
              (subst (λ k. Shows k l.outside.metrics) size h) in
          let done = Shows-stop after (length removed.subscribers) o.metrics before in
          elim (Bool-cases is_replayed) [
            | inl replayed ↦ rw (there, replayed, publisher_stopped) done
            | inr local ↦ rw (there, local, publisher_stopped) done
          ]
    ]

pub sample_gauges-Exact : (l : LiveFanout) → Exact l → Exact (sample_gauges l)
unfolding gauges_set
sample_gauges-Exact l h = go l.outside.metrics h
  where
    go :
        (metrics : Option Metrics)
        → Shows (viewers l) metrics
        → Shows (viewers l) (on_metrics (gauges_set l.streams) metrics)
    go none h = tt
    go (some m) h = h
