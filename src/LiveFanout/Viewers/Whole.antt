-- ===== src/LiveFanout/Viewers/Whole.antt =====
-- What one viewer gets from one frame in all, with the end of run_deliveries, where sinks that refused
-- too often are given up (src/protocol/commands/live_fanout.cpp).
use rtmp_core.Base.{
  ℕ, suc, ◌+◌, ◌≤◌, ◌≡◌, ◌⊎◌, refl, sym, ap, ◌∙◌, inl, inr, true, false, not, Option, none, some,
  List, [], ◌∷◌, ◌++◌, append-nil, append_assoc, All, length, length-append, arith, ltb, ◌==◌,
  if◌then◌else◌, Bool-cases,
}
use rtmp_core.Base.Table.{lookup, set}
use rtmp_core.Playback.ViewerQueue.{
  Decision, ViewerQueue, deliver, deliver_resumed, drop_and_wait, evict, offer,
}
use rtmp_core.LiveFanout.State.{
  Call, evicted, unsubscribed, call, count, plus, eviction_counted, Outside, Sinks, Subscriber,
  Subscribers, StreamState,
}
use rtmp_core.LiveFanout.Dispatch.{
  Incoming, Delivery, media, eviction, is_video, no_backlog, decided, dispatch_one, dispatch_all,
  dispatch_locked,
}
use rtmp_core.LiveFanout.Deliveries.{
  Answer, Folded, Sending, run_delivery, run_each, missed, fold_answer, fold_all, give_up,
  count_egress, run_deliveries,
}
use rtmp_core.LiveFanout.Viewers.{calls_for, due, decision, calls_for-append}
use rtmp_core.LiveFanout.Viewers.Each.{Other, run_each-dispatch_all}

-- The notices to one sink.
abbrev notices : ℕ → List ℕ → List Call
notices sink [] = []
notices sink (s ∷ ss) = if s == sink then evicted s ∷ notices sink ss else notices sink ss

notices-append :
    (sink : ℕ) (xs ys : List ℕ) → notices sink (xs ++ ys) ≡ notices sink xs ++ notices sink ys
notices-append sink [] ys = refl
notices-append sink (s ∷ ss) ys = elim (Bool-cases (s == sink)) [
  | inl mine ↦ rw mine (ap (◌∷◌ (evicted s)) (notices-append sink ss ys))
  | inr other ↦ rw other (notices-append sink ss ys)
]

-- The notice to one sink, behind the report to the hook.
notice-calls :
    (sink stream_id s : ℕ) (o : Outside)
    → calls_for sink (call (evicted s) (call (unsubscribed stream_id) o)).calls
      ≡ calls_for sink o.calls ++ notices sink (s ∷ [])
unfolding calls_for
notice-calls sink stream_id s o =
    calls_for-append sink (o.calls ++ unsubscribed stream_id ∷ []) (evicted s ∷ [])
    ∙ ap (λ cs. cs ++ notices sink (s ∷ []))
        (calls_for-append sink o.calls (unsubscribed stream_id ∷ [])
          ∙ append-nil (calls_for sink o.calls))

give_up-calls :
    (sink stream_id : ℕ) (sinks : List ℕ) (o : Outside)
    → calls_for sink (give_up stream_id sinks o).calls
      ≡ calls_for sink o.calls ++ notices sink sinks
unfolding give_up
give_up-calls sink stream_id [] o = sym (append-nil (calls_for sink o.calls))
give_up-calls sink stream_id (s ∷ ss) o =
    give_up-calls sink stream_id ss
      (call (evicted s) (call (unsubscribed stream_id) (count eviction_counted o)))
    ∙ ap (λ cs. cs ++ notices sink ss) (notice-calls sink stream_id s (count eviction_counted o))
    ∙ append_assoc (calls_for sink o.calls) (notices sink (s ∷ [])) (notices sink ss)
    ∙ ap (◌++◌ (calls_for sink o.calls)) (sym (notices-append sink (s ∷ []) ss))

-- How many of the answers are from one sink, and how many of the deliveries are for it.
abbrev answers_of : ℕ → List Answer → ℕ
answers_of sink [] = 0
answers_of sink (a ∷ rest) =
    if a.delivery.sink == sink then 1 + answers_of sink rest else answers_of sink rest

abbrev media_for : ℕ → List Delivery → ℕ
media_for sink [] = 0
media_for sink (media d ∷ rest) =
    if d.sink == sink then 1 + media_for sink rest else media_for sink rest
media_for sink (eviction id s ∷ rest) = media_for sink rest

run_each-answers :
    (accepts : Sinks) (sink : ℕ) (ds : List Delivery) (s : Sending)
    → answers_of sink (run_each accepts ds s).0 ≡ media_for sink ds
unfolding run_each
run_each-answers accepts sink [] s = refl
run_each-answers accepts sink (media d ∷ rest) s =
    let ih = run_each-answers accepts sink rest (run_delivery accepts d s).1 in rw ih refl
run_each-answers accepts sink (eviction id e ∷ rest) (egress, o) =
    run_each-answers accepts sink rest _

media_for-append :
    (sink : ℕ) (xs ys : List Delivery)
    → media_for sink (xs ++ ys) ≡ media_for sink xs + media_for sink ys
media_for-append sink [] ys = omega arith
media_for-append sink (media d ∷ rest) ys = ground (arith, media_for-append sink rest ys)
media_for-append sink (eviction id s ∷ rest) ys = media_for-append sink rest ys

-- Whether an answer is from the sink.
abbrev from : ℕ → Answer → ℕ
from sink a = if a.delivery.sink == sink then 1 else 0

-- No call is changed, and at most one more notice is due to the sink for each answer of its own.
record Grows (sink n : ℕ) (f g : Folded) : Type 0 where
  pub same_calls : g.outside.calls ≡ f.outside.calls
  pub few :
      length (notices sink g.transport_evictions) ≤ length (notices sink f.transport_evictions) + n

abbrev folded : ℕ → Answer → Folded → Option Subscriber → Folded
folded max_drops a f found = elim found [
  | none ↦ f
  | some sub ↦
      if not (sub.sink == a.delivery.sink)
      then f
      else if a.delivered
      then record f {
        subscribers =
            set ◌==◌ a.delivery.subscriber_id (record sub { consecutive_transport_drops = 0 })
              f.subscribers;
      }
      else missed max_drops a sub f
]

missed-Grows :
    (sink max_drops : ℕ) (a : Answer) (sub : Subscriber) (f : Folded)
    → (sub.sink == a.delivery.sink) ≡ true
    → Grows sink (from sink a) f (missed max_drops a sub f)
missed-Grows sink max_drops a sub f own =
    let same : sub.sink ≡ a.delivery.sink = ground arith in
    elim (Bool-cases (ltb max_drops (plus sub.consecutive_transport_drops 1))) [
      | inl over ↦ rw over (record {
        same_calls = refl;
        few =
            rw (notices-append sink f.transport_evictions (sub.sink ∷ []), same)
              (ground (
                arith,
                length-append (notices sink f.transport_evictions)
                    (notices sink (a.delivery.sink ∷ [])),
              ));
      })
      | inr under ↦ rw under (record { same_calls = refl; few = omega arith })
    ]

folded-Grows :
    (sink max_drops : ℕ) (a : Answer) (f : Folded) (found : Option Subscriber)
    → Grows sink (from sink a) f (folded max_drops a f found)
folded-Grows sink max_drops a f none = record { same_calls = refl; few = omega arith }
folded-Grows sink max_drops a f (some sub) = elim (Bool-cases (sub.sink == a.delivery.sink)) [
  | inr other ↦ rw other (record { same_calls = refl; few = omega arith })
  | inl own ↦ elim (Bool-cases a.delivered) [
    | inl taken ↦ rw (own, taken) (record { same_calls = refl; few = omega arith })
    | inr refused ↦ rw (own, refused) (missed-Grows sink max_drops a sub f own)
  ]
]

fold_all-Grows :
    (sink max_drops : ℕ) (answers : List Answer) (f : Folded)
    → Grows sink (answers_of sink answers) f (fold_all max_drops answers f)
unfolding fold_all fold_answer
fold_all-Grows sink max_drops [] f = record { same_calls = refl; few = omega arith }
fold_all-Grows sink max_drops (a ∷ rest) f =
    let here =
      folded-Grows sink max_drops a f (lookup ◌==◌ a.delivery.subscriber_id f.subscribers) in
    let g = fold_answer max_drops a f in
    let later = fold_all-Grows sink max_drops rest g in
    record {
      same_calls = later.same_calls ∙ here.same_calls;
      few = ground (arith, here.few, later.few);
    }

-- Whether a viewer is sent the frame.
abbrev sends : Decision → ℕ
sends deliver = 1
sends deliver_resumed = 1
sends drop_and_wait = 0
sends evict = 0

module _ (state : StreamState) (f : Incoming) where
  decided-media :
      (sink id : ℕ) (sub : Subscriber) (o : Outside) (d : Decision × ViewerQueue)
      → media_for sink (decided state f id sub o d).0 ≤ (if sub.sink == sink then sends d.0 else 0)
  decided-media sink id sub o (deliver, q) = ground arith
  decided-media sink id sub o (deliver_resumed, q) = ground arith
  decided-media sink id sub o (drop_and_wait, q) = ground arith
  decided-media sink id sub o (evict, q) = ground arith

  dispatch_one-media :
      (sink id : ℕ) (sub : Subscriber) (o : Outside)
      → media_for sink (dispatch_one state f id sub o).0
        ≤ (if sub.sink == sink then sends (decision f sub) else 0)
  unfolding dispatch_one
  dispatch_one-media sink id sub o =
      decided-media sink id sub o
        (offer no_backlog (length f.frame.payload) (is_video f.kind) f.is_keyframe sub.queue)

  dispatch_one-media_other :
      (sink id : ℕ) (sub : Subscriber) (o : Outside)
      → (sub.sink == sink) ≡ false
      → media_for sink (dispatch_one state f id sub o).0 ≤ 0
  dispatch_one-media_other sink id sub o other =
      let here = dispatch_one-media sink id sub o in (rw other at here)

  dispatch_one-media_own :
      (id : ℕ) (sub : Subscriber) (o : Outside)
      → media_for sub.sink (dispatch_one state f id sub o).0 ≤ sends (decision f sub)
  dispatch_one-media_own id sub o =
      let own : (sub.sink == sub.sink) ≡ true = ground arith in
      let here = dispatch_one-media sub.sink id sub o in (rw own at here)

  dispatch_all-media_others :
      (sink : ℕ) (subs : Subscribers) (o : Outside)
      → All (Other state f sink) subs
      → media_for sink (dispatch_all state f subs o).0 ≤ 0
  unfolding dispatch_all
  dispatch_all-media_others sink [] o all = omega arith
  dispatch_all-media_others sink ((id, sub) ∷ rest) o (other, all) =
      let (here, kept, o') = dispatch_one state f id sub o in
      omega (
        arith,
        media_for-append sink here (dispatch_all state f rest o').0,
        dispatch_one-media_other sink id sub o other,
        dispatch_all-media_others sink rest o' all,
      )

  dispatch_all-media :
      (id : ℕ) (sub : Subscriber) (front back : Subscribers) (o : Outside)
      → All (Other state f sub.sink) front
      → All (Other state f sub.sink) back
      → media_for sub.sink (dispatch_all state f (front ++ (id, sub) ∷ back) o).0
        ≤ sends (decision f sub)
  unfolding dispatch_all
  dispatch_all-media id sub [] back o before behind =
      let (here, kept, o') = dispatch_one state f id sub o in
      omega (
        arith,
        media_for-append sub.sink here (dispatch_all state f back o').0,
        dispatch_one-media_own id sub o,
        dispatch_all-media_others sub.sink back o' behind,
      )
  dispatch_all-media id sub ((id', sub') ∷ front) back o (other, before) behind =
      let (here, kept, o') = dispatch_one state f id' sub' o in
      omega (
        arith,
        media_for-append sub.sink here (dispatch_all state f (front ++ (id, sub) ∷ back) o').0,
        dispatch_one-media_other sub.sink id' sub' o other,
        dispatch_all-media id sub front back o' before behind,
      )

-- What may follow what is due: to a viewer that was sent the frame, the notice that it is given up.
abbrev pub Tail : Decision → ℕ → List Call → Type 0
Tail deliver sink tail = (tail ≡ []) ⊎ (tail ≡ evicted sink ∷ [])
Tail deliver_resumed sink tail = (tail ≡ []) ⊎ (tail ≡ evicted sink ∷ [])
Tail drop_and_wait sink tail = tail ≡ []
Tail evict sink tail = tail ≡ []

notices-none : (sink : ℕ) (ss : List ℕ) → length (notices sink ss) ≤ 0 → notices sink ss ≡ []
notices-none sink [] few = refl
notices-none sink (s ∷ ss) few = elim (Bool-cases (s == sink)) [
  | inl mine ↦ absurd (omega (arith, (rw mine at few)))
  | inr other ↦ rw other (notices-none sink ss (rw other at few))
]

notices-one :
    (sink : ℕ) (ss : List ℕ)
    → length (notices sink ss) ≤ 1
    → (notices sink ss ≡ []) ⊎ (notices sink ss ≡ evicted sink ∷ [])
notices-one sink [] few = inl refl
notices-one sink (s ∷ ss) few = elim (Bool-cases (s == sink)) [
  | inl mine ↦
      let same : s ≡ sink = ground arith in
      let short : suc (length (notices sink ss)) ≤ 1 = (rw mine at few) in
      rw (mine, same, notices-none sink ss (omega (arith, short))) (inr refl)
  | inr other ↦ rw other (notices-one sink ss (rw other at few))
]

notices-Tail :
    (sink : ℕ) (ss : List ℕ) (d : Decision)
    → length (notices sink ss) ≤ sends d
    → Tail d sink (notices sink ss)
notices-Tail sink ss deliver few = notices-one sink ss few
notices-Tail sink ss deliver_resumed few = notices-one sink ss few
notices-Tail sink ss drop_and_wait few = notices-none sink ss few
notices-Tail sink ss evict few = notices-none sink ss few

count_egress-calls :
    (egress : ℕ) (state : StreamState) (o : Outside)
    → (count_egress egress state o).1.calls ≡ o.calls
unfolding count_egress
count_egress-calls egress state o = ground arith

-- For a viewer whose sink no other viewer of the stream has: when a frame is dispatched and the
-- deliveries are run to their end, the calls that its sink gets are exactly what its own queue decides -
-- the frame; the sequence headers that the stream has and then the frame; nothing; or the notice of
-- its eviction - and after that at most one notice that it is given up, and this only where it was sent
-- the frame. This holds whatever the other viewers are, and whatever any sink answers.
pub run_deliveries-dispatch_locked :
    (state : StreamState) (f : Incoming) (accepts : Sinks) (max_drops id : ℕ) (sub : Subscriber)
    (front back : Subscribers) (o : Outside)
    → state.subscribers ≡ front ++ (id, sub) ∷ back
    → All (Other state f sub.sink) front
    → All (Other state f sub.sink) back
    → let (deliveries, dispatched, o') = dispatch_locked state f o in
      let (_, o'') = run_deliveries accepts max_drops f.stream_id deliveries dispatched o' in
      (tail : List Call) × Tail (decision f sub) sub.sink tail
      × (calls_for sub.sink o''.calls
          ≡ calls_for sub.sink o.calls ++ (due state f sub.sink (decision f sub) ++ tail))
unfolding run_deliveries dispatch_all dispatch_one
run_deliveries-dispatch_locked state f accepts max_drops id sub front back o e before behind =
    let (deliveries, dispatched, o') = dispatch_locked state f o in
    let (answers, (egress, sent_out)) = run_each accepts deliveries (0, o') in
    let first : Folded = record {
      subscribers = dispatched.subscribers;
      transport_evictions = [];
      outside = sent_out;
    } in
    let last = fold_all max_drops answers first in
    let grown = fold_all-Grows sub.sink max_drops answers first in
    let tail = notices sub.sink last.transport_evictions in
    let all_media : media_for sub.sink deliveries ≤ sends (decision f sub) =
      rw e (dispatch_all-media state f id sub front back o before behind) in
    let few : length tail ≤ sends (decision f sub) =
      omega (arith, grown.few, run_each-answers accepts sub.sink deliveries (0, o'), all_media) in
    let each : calls_for sub.sink sent_out.calls
        ≡ calls_for sub.sink o.calls ++ due state f sub.sink (decision f sub) =
      rw e (run_each-dispatch_all state f accepts id sub front back o before behind) in
    (
      tail,
      notices-Tail sub.sink last.transport_evictions (decision f sub) few,
      ap (calls_for sub.sink) (count_egress-calls egress _ _)
          ∙ give_up-calls sub.sink f.stream_id last.transport_evictions last.outside
          ∙ ap (λ cs. calls_for sub.sink cs ++ tail) grown.same_calls
          ∙ ap (λ cs. cs ++ tail) each
          ∙ append_assoc (calls_for sub.sink o.calls) (due state f sub.sink (decision f sub)) tail,
    )
