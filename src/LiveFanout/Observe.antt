-- ===== src/LiveFanout/Observe.antt =====
-- The gauges and the counts that are read off (src/protocol/commands/live_fanout.cpp).
use rtmp_core.Base.{
  ℕ, suc, ◌%◌, ◌^◌, Bool, false, ◌||◌, none, some, List, [], ◌∷◌, length, ◌==◌, same_key,
  if◌then◌else◌,
}
use rtmp_core.Base.Table.{Table, lookup, total}
use rtmp_core.LiveFanout.State.{Metrics, count, Subscriber, Subscribers, StreamState, LiveFanout}

-- The sums are taken in 64 bits.
abbrev pub subscribers_of : StreamState → ℕ
subscribers_of state = length state.subscribers

abbrev pub queued_bytes : Subscriber → ℕ
queued_bytes sub = sub.queue.bytes

abbrev pub queued_packets : Subscriber → ℕ
queued_packets sub = sub.queue.packet_count

abbrev pub viewers_of : Table ℕ StreamState → List ℕ
viewers_of [] = []
viewers_of ((id, state) ∷ rest) = subscribers_of state ∷ viewers_of rest

unfoldable pub gauges_set : Table ℕ StreamState → Metrics → Metrics
gauges_set streams m = record m {
  gop_cache_bytes = total ◌==◌ (λ (s : StreamState). s.gop_cache.total_bytes) streams % 2 ^ 64;
  gop_cache_packets = total ◌==◌ (λ (s : StreamState). length s.gop_cache.frames) streams % 2 ^ 64;
  outbound_queue_bytes =
      total ◌==◌ (λ (s : StreamState). total ◌==◌ queued_bytes s.subscribers) streams % 2 ^ 64;
  outbound_queue_packets =
      total ◌==◌ (λ (s : StreamState). total ◌==◌ queued_packets s.subscribers) streams % 2 ^ 64;
  viewers_per_stream = viewers_of streams;
}

abbrev pub sample_gauges : LiveFanout → LiveFanout
sample_gauges l = record l { outside = count (gauges_set l.streams) l.outside }

unfoldable pub subscriber_count : ℕ → LiveFanout → ℕ
subscriber_count stream_id l = elim (lookup ◌==◌ stream_id l.streams) [
  | none ↦ 0
  | some state ↦ length state.subscribers
]

abbrev pub seen : List ℕ → List (List ℕ) → Bool
seen ip [] = false
seen ip (known ∷ rest) = same_key known ip || seen ip rest

-- `seen_ips` holds the addresses of the entries before.
unfoldable pub count_unique : List (List ℕ) → Subscribers → ℕ
count_unique seen_ips [] = 0
count_unique seen_ips ((id, sub) ∷ rest) =
    let ip = sub.client_ip in
    let next =
      count_unique (if (length ip == 0) || seen ip seen_ips then seen_ips else ip ∷ seen_ips)
        rest in
    if length ip == 0 then suc next else if seen ip seen_ips then next else suc next

unfoldable pub unique_viewer_count : ℕ → LiveFanout → ℕ
unique_viewer_count stream_id l = elim (lookup ◌==◌ stream_id l.streams) [
  | none ↦ 0
  | some state ↦ count_unique [] state.subscribers
]

unfoldable pub egress_bytes_total : ℕ → LiveFanout → ℕ
egress_bytes_total stream_id l = elim (lookup ◌==◌ stream_id l.streams) [
  | none ↦ 0
  | some state ↦ state.egress_bytes_total
]
