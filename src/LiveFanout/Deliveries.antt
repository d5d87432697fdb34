-- ===== src/LiveFanout/Deliveries.antt =====
-- run_deliveries (src/protocol/commands/live_fanout.cpp): the calls of the sinks, and what their
-- answers do to the viewers. The sinks do not call back while they answer.
use rtmp_core.Base.{
  ℕ, Bool, not, Option, none, some, List, [], ◌∷◌, ◌++◌, length, ltb, ◌==◌, if◌then◌else◌,
}
use rtmp_core.Base.Table.{lookup, set, remove}
use rtmp_core.Playback.GopCache.{SharedMediaFrame}
use rtmp_core.LiveFanout.State.{
  MediaKind, audio, video, sent, evicted, unsubscribed, Outside, Sinks, Metrics, count, call, plus,
  drop_counted, eviction_counted, Subscriber, Subscribers, StreamState,
}
use rtmp_core.LiveFanout.Dispatch.{PendingDelivery, Delivery, media, eviction}

-- The bytes that sinks took so far, beside the rest.
abbrev pub Sending : Type 0
Sending = ℕ × Outside

-- Whether the sink took the frame.
unfoldable pub send : Sinks → MediaKind → ℕ → SharedMediaFrame → Sending → Bool × Sending
send accepts kind sink frame (egress, o) =
    let o' = call (sent kind sink frame) o in
    let delivered = accepts o'.calls in
    (delivered, (if delivered then plus egress (length frame.payload) else egress, o'))

abbrev pub resend : Sinks → MediaKind → ℕ → Option SharedMediaFrame → Sending → Sending
resend accepts kind sink none s = s
resend accepts kind sink (some header) s = (send accepts kind sink header s).1

pub record Answer : Type 0 where
  pub delivery : PendingDelivery
  pub delivered : Bool

unfoldable pub run_delivery : Sinks → PendingDelivery → Sending → Bool × Sending
run_delivery accepts d s = send accepts d.kind d.sink d.frame (
    resend accepts audio d.sink d.resend_audio_seq_header
      (resend accepts video d.sink d.resend_video_seq_header s))

unfoldable pub run_each : Sinks → List Delivery → Sending → List Answer × Sending
run_each accepts [] s = ([], s)
run_each accepts (media d ∷ rest) s =
    let (delivered, s') = run_delivery accepts d s in
    let (answers, s'') = run_each accepts rest s' in
    (record { delivery = d; delivered = delivered } ∷ answers, s'')
run_each accepts (eviction id sink ∷ rest) (egress, o) =
    run_each accepts rest (egress, call (evicted sink) o)

-- The viewers that are left, the sinks that are given up, and the metrics.
pub record Folded : Type 0 where
  pub subscribers : Subscribers
  pub transport_evictions : List ℕ
  pub outside : Outside

abbrev pub missed : ℕ → Answer → Subscriber → Folded → Folded
missed max_drops a sub f =
    let id = a.delivery.subscriber_id in
    let drops = plus sub.consecutive_transport_drops 1 in
    let counted = count (drop_counted a.delivery.kind) f.outside in
    if ltb max_drops drops
    then record f {
      subscribers = remove ◌==◌ id f.subscribers;
      transport_evictions = f.transport_evictions ++ sub.sink ∷ [];
      outside = counted;
    }
    else record f {
      subscribers = set ◌==◌ id (record sub { consecutive_transport_drops = drops }) f.subscribers;
      outside = counted;
    }

unfoldable pub fold_answer : ℕ → Answer → Folded → Folded
fold_answer max_drops a f =
    let id = a.delivery.subscriber_id in
    elim (lookup ◌==◌ id f.subscribers) [
      | none ↦ f
      | some sub ↦
          if not (sub.sink == a.delivery.sink)
          then f
          else if a.delivered
          then record f {
            subscribers =
                set ◌==◌ id (record sub { consecutive_transport_drops = 0 }) f.subscribers;
          }
          else missed max_drops a sub f
    ]

unfoldable pub fold_all : ℕ → List Answer → Folded → Folded
fold_all max_drops [] f = f
fold_all max_drops (a ∷ rest) f = fold_all max_drops rest (fold_answer max_drops a f)

unfoldable pub give_up : ℕ → List ℕ → Outside → Outside
give_up stream_id [] o = o
give_up stream_id (sink ∷ rest) o =
    give_up stream_id rest
      (call (evicted sink) (call (unsubscribed stream_id) (count eviction_counted o)))

abbrev pub egress_counted : ℕ → Metrics → Metrics
egress_counted n m = record m { egress_bytes_total = plus m.egress_bytes_total n }

unfoldable pub count_egress : ℕ → StreamState → Outside → StreamState × Outside
count_egress n state o =
    if ltb 0 n
    then (
      record state { egress_bytes_total = plus state.egress_bytes_total n },
      count (egress_counted n) o,
    )
    else (state, o)

unfoldable pub run_deliveries :
    Sinks → ℕ → ℕ → List Delivery → StreamState → Outside → StreamState × Outside
run_deliveries accepts max_drops stream_id deliveries state o =
    let (answers, (egress, o')) = run_each accepts deliveries (0, o) in
    let folded =
      fold_all max_drops answers
        (record { subscribers = state.subscribers; transport_evictions = []; outside = o' }) in
    count_egress egress (record state { subscribers = folded.subscribers })
      (give_up stream_id folded.transport_evictions folded.outside)
