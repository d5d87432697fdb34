-- ===== src/LiveFanout/Gauge.antt =====
-- The gauge active_viewers (src/protocol/commands/live_fanout.cpp) through one dispatch and its
-- deliveries.
pub mod Steps
pub mod Runs
use rtmp_core.Base.{
  ℕ, zero, suc, ◌+◌, ◌-◌, ◌%◌, ◌^◌, ◌≤◌, ◌<◌, ◌≡◌, refl, sym, ap, ◌∙◌, inl, inr, Bool, true, false,
  not, Option, none, some, List, [], ◌∷◌, ◌++◌, length, length-append, arith, ltb, ◌==◌,
  if◌then◌else◌, Bool-cases, Option-cases,
}
use mathlib.Core.Path.{subst}
use rtmp_core.Base.Table.{lookup, set, remove, length-set_old, length-remove}
use rtmp_core.Playback.ViewerQueue.{
  Decision, ViewerQueue, deliver, deliver_resumed, drop_and_wait, evict, offer,
}
use rtmp_core.Playback.GopCache.{SharedMediaFrame}
use rtmp_core.LiveFanout.State.{
  MediaKind, audio, video, metadata, Outside, Sinks, Metrics, count, call, plus, drop_counted,
  recovery_counted, eviction_counted, on_metrics, unsubscribed, evicted, sent, Subscriber,
  Subscribers, StreamState,
}
use rtmp_core.LiveFanout.Dispatch.{
  Delivery, media, eviction, Incoming, keep, decided, dispatch_one, dispatch_all, no_backlog,
  is_video,
}
use rtmp_core.LiveFanout.Deliveries.{
  Sending, send, resend, run_delivery, run_each, Answer, Folded, missed, fold_answer, fold_all,
  give_up, egress_counted, count_egress, run_deliveries,
}

-- The gauge, where there are metrics, shows `n`.
abbrev pub Shows : ℕ → Option Metrics → Type 0
Shows n none = Unit {0}
Shows n (some m) = m.active_viewers ≡ n % 2 ^ 64

pub Shows-dropped :
    (n : ℕ) (kind : MediaKind) (metrics : Option Metrics)
    → Shows n metrics
    → Shows n (on_metrics (drop_counted kind) metrics)
Shows-dropped n kind none h = tt
Shows-dropped n video (some m) h = h
Shows-dropped n audio (some m) h = h
Shows-dropped n metadata (some m) h = h

Shows-recovered :
    (n : ℕ) (metrics : Option Metrics)
    → Shows n metrics
    → Shows n (on_metrics recovery_counted metrics)
Shows-recovered n none h = tt
Shows-recovered n (some m) h = h

Shows-evicted :
    (n : ℕ) (metrics : Option Metrics)
    → Shows (suc n) metrics
    → Shows n (on_metrics eviction_counted metrics)
Shows-evicted n none h = tt
Shows-evicted n (some m) h = omega (arith, h)

abbrev kept_size : Option Subscriber → ℕ
kept_size none = 0
kept_size (some sub) = 1

decided-Shows :
    (state : StreamState) (f : Incoming) (id : ℕ) (sub : Subscriber) (o : Outside) (n : ℕ)
    (d : Decision × ViewerQueue)
    → Shows (suc n) o.metrics
    → let (here, kept, o') = decided state f id sub o d in Shows (kept_size kept + n) o'.metrics
decided-Shows state f id sub o n (deliver, q) h = let e : 1 + n ≡ suc n = omega arith in rw e h
decided-Shows state f id sub o n (deliver_resumed, q) h =
    let e : 1 + n ≡ suc n = omega arith in rw e (Shows-recovered (suc n) o.metrics h)
decided-Shows state f id sub o n (drop_and_wait, q) h =
    let e : 1 + n ≡ suc n = omega arith in rw e (Shows-dropped (suc n) f.kind o.metrics h)
decided-Shows state f id sub o n (evict, q) h =
    let e : 0 + n ≡ n = omega arith in rw e (Shows-evicted n o.metrics h)

length-keep :
    (id : ℕ) (kept : Option Subscriber) (rest : Subscribers)
    → length (keep id kept rest) ≡ kept_size kept + length rest
length-keep id none rest = omega arith
length-keep id (some sub) rest = omega arith

pub dispatch_all-Shows :
    (state : StreamState) (f : Incoming) (subscribers : Subscribers) (o : Outside) (n : ℕ)
    → Shows (length subscribers + n) o.metrics
    → let (deliveries, left, o') = dispatch_all state f subscribers o in
      Shows (length left + n) o'.metrics
unfolding dispatch_all dispatch_one
dispatch_all-Shows state f [] o n h = h
dispatch_all-Shows state f ((id, sub) ∷ rest) o n h =
    let (here, kept, o') = dispatch_one state f id sub o in
    let (later, others, o'') = dispatch_all state f rest o' in
    let e : suc (length rest) + n ≡ suc (length rest + n) = omega arith in
    let e' : kept_size kept + (length rest + n) ≡ length rest + (kept_size kept + n) =
      omega arith in
    let first =
      decided-Shows state f id sub o (length rest + n) _ (subst (λ k. Shows k o.metrics) e h) in
    let second =
      dispatch_all-Shows state f rest o' (kept_size kept + n)
        (subst (λ k. Shows k o'.metrics) e' first) in
    let e'' : length others + (kept_size kept + n) ≡ length (keep id kept others) + n =
      omega (arith, length-keep id kept others) in
    subst (λ k. Shows k o''.metrics) e'' second

resend-metrics :
    (accepts : Sinks) (kind : MediaKind) (sink : ℕ) (header : Option SharedMediaFrame) (s : Sending)
    → (resend accepts kind sink header s).1.metrics ≡ s.1.metrics
unfolding send
resend-metrics accepts kind sink none s = refl
resend-metrics accepts kind sink (some frame) s = refl

-- The sinks' answers change no metric.
run_each-metrics :
    (accepts : Sinks) (deliveries : List Delivery) (s : Sending)
    → let (answers, (egress, o)) = run_each accepts deliveries s in o.metrics ≡ s.1.metrics
unfolding run_each run_delivery send
run_each-metrics accepts [] s = refl
run_each-metrics accepts (media d ∷ rest) s =
    let s' = resend accepts video d.sink d.resend_video_seq_header s in
    run_each-metrics accepts rest (run_delivery accepts d s).1
    ∙ resend-metrics accepts audio d.sink d.resend_audio_seq_header s'
    ∙ resend-metrics accepts video d.sink d.resend_video_seq_header s
run_each-metrics accepts (eviction id sink ∷ rest) (egress, o) =
    run_each-metrics accepts rest (egress, call (evicted sink) o)

abbrev viewers : Folded → ℕ
viewers f = length f.subscribers + length f.transport_evictions

-- No viewer is lost: it stays, or it is on the list of those who are given up.
record Balanced (f g : Folded) : Type 0 where
  same : viewers g ≡ viewers f
  shows : (n : ℕ) → Shows n f.outside.metrics → Shows n g.outside.metrics

missed-Balanced :
    (max_drops : ℕ) (a : Answer) (sub : Subscriber) (f : Folded)
    → lookup ◌==◌ a.delivery.subscriber_id f.subscribers ≡ some sub
    → Balanced f (missed max_drops a sub f)
missed-Balanced max_drops a sub f there =
    let id = a.delivery.subscriber_id in
    let drops = plus sub.consecutive_transport_drops 1 in
    elim (Bool-cases (ltb max_drops drops)) [
      | inl over ↦ rw over (record {
        same = omega (
          arith,
          length-remove ◌==◌ id sub f.subscribers there,
          length-append f.transport_evictions (sub.sink ∷ []),
        );
        shows = λ n h. Shows-dropped n a.delivery.kind f.outside.metrics h;
      })
      | inr within ↦ rw within (record {
        same = omega (
          arith,
          length-set_old ◌==◌ id (record sub { consecutive_transport_drops = drops }) sub
              f.subscribers there,
        );
        shows = λ n h. Shows-dropped n a.delivery.kind f.outside.metrics h;
      })
    ]

fold_answer-Balanced :
    (max_drops : ℕ) (a : Answer) (f : Folded) → Balanced f (fold_answer max_drops a f)
unfolding fold_answer
fold_answer-Balanced max_drops a f =
    let id = a.delivery.subscriber_id in
    let still : Balanced f f = record { same = refl; shows = λ n h. h } in
    elim (Option-cases (lookup ◌==◌ id f.subscribers)) [
      | inl gone ↦ rw (gone, fold_answer) still
      | inr (sub, there) ↦ elim (Bool-cases (sub.sink == a.delivery.sink)) [
        | inl same ↦ elim (Bool-cases a.delivered) [
          | inl taken ↦
              rw (there, same, taken, fold_answer)
                (record {
                  same = omega (
                    arith,
                    length-set_old ◌==◌ id (record sub { consecutive_transport_drops = 0 }) sub
                        f.subscribers there,
                  );
                  shows = λ n h. h;
                })
          | inr refused ↦
              rw (there, same, refused, fold_answer) (missed-Balanced max_drops a sub f there)
        ]
        | inr other ↦ rw (there, other, fold_answer) still
      ]
    ]

fold_all-Balanced :
    (max_drops : ℕ) (answers : List Answer) (f : Folded) → Balanced f (fold_all max_drops answers f)
unfolding fold_all
fold_all-Balanced max_drops [] f = record { same = refl; shows = λ n h. h }
fold_all-Balanced max_drops (a ∷ rest) f =
    let g = fold_answer max_drops a f in
    let one = fold_answer-Balanced max_drops a f in
    let more = fold_all-Balanced max_drops rest g in
    record { same = more.same ∙ one.same; shows = λ n h. more.shows n (one.shows n h) }

give_up-Shows :
    (stream_id : ℕ) (sinks : List ℕ) (o : Outside) (n : ℕ)
    → Shows (n + length sinks) o.metrics
    → Shows n (give_up stream_id sinks o).metrics
unfolding give_up
give_up-Shows stream_id [] o n h =
    let e : n + 0 ≡ n = omega arith in subst (λ k. Shows k o.metrics) e h
give_up-Shows stream_id (sink ∷ rest) o n h =
    let e : n + suc (length rest) ≡ suc (n + length rest) = omega arith in
    give_up-Shows stream_id rest _ n
      (Shows-evicted (n + length rest) o.metrics (subst (λ k. Shows k o.metrics) e h))

count_egress-Shows :
    (egress : ℕ) (state : StreamState) (o : Outside) (n : ℕ)
    → Shows n o.metrics
    → let (state', o') = count_egress egress state o in
      Shows n o'.metrics × (state'.subscribers ≡ state.subscribers)
unfolding count_egress
count_egress-Shows egress state o n h = elim (Bool-cases (ltb 0 egress)) [
  | inl more ↦ rw more (with_metrics o.metrics h, refl)
  | inr none_taken ↦ rw none_taken (h, refl)
]
  where
    with_metrics :
        (metrics : Option Metrics)
        → Shows n metrics
        → Shows n (on_metrics (egress_counted egress) metrics)
    with_metrics none h = tt
    with_metrics (some m) h = h

-- The viewers of one stream, beside `n` others.
pub run_deliveries-Shows :
    (accepts : Sinks) (max_drops stream_id : ℕ) (deliveries : List Delivery) (state : StreamState)
    (o : Outside) (n : ℕ)
    → Shows (length state.subscribers + n) o.metrics
    → let (state', o') = run_deliveries accepts max_drops stream_id deliveries state o in
      Shows (length state'.subscribers + n) o'.metrics
unfolding run_deliveries
run_deliveries-Shows accepts max_drops stream_id deliveries state o n h =
    let (answers, (egress, o')) = run_each accepts deliveries (0, o) in
    let start : Folded = record {
      subscribers = state.subscribers;
      transport_evictions = [];
      outside = o';
    } in
    let folded = fold_all max_drops answers start in
    let balanced = fold_all-Balanced max_drops answers start in
    let begun : Shows (length state.subscribers + n) o'.metrics =
      subst (Shows (length state.subscribers + n))
        (sym (run_each-metrics accepts deliveries (0, o))) h in
    let after = balanced.shows (length state.subscribers + n) begun in
    let e : length state.subscribers + n
        ≡ length folded.subscribers + n + length folded.transport_evictions =
      omega (arith, balanced.same) in
    let given =
      give_up-Shows stream_id folded.transport_evictions folded.outside
        (length folded.subscribers + n) (subst (λ k. Shows k folded.outside.metrics) e after) in
    let (shown, same) =
      count_egress-Shows egress (record state { subscribers = folded.subscribers })
        (give_up stream_id folded.transport_evictions folded.outside)
        (length folded.subscribers + n) given in
    let (state', o'') = run_deliveries accepts max_drops stream_id deliveries state o in
    subst (λ (subs : Subscribers). Shows (length subs + n) o''.metrics) (sym same) shown
