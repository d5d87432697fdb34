-- ===== src/LiveFanout/Viewers/Each.antt =====
-- What one viewer gets does not depend on the other viewers (src/protocol/commands/live_fanout.cpp).
use rtmp_core.Base.{
  ℕ, ◌≡◌, refl, ap, ◌∙◌, false, Option, none, some, [], ◌∷◌, ◌++◌, append-nil, All, length, arith,
  ◌==◌,
}
use rtmp_core.Playback.GopCache.{SharedMediaFrame}
use rtmp_core.Playback.ViewerQueue.{Decision, deliver, deliver_resumed, drop_and_wait, evict, offer}
use rtmp_core.LiveFanout.State.{
  MediaKind, audio, video, sent, Outside, Sinks, Subscriber, Subscribers, StreamState,
}
use rtmp_core.LiveFanout.Dispatch.{Incoming, is_video, no_backlog, dispatch_one, dispatch_all}
use rtmp_core.LiveFanout.Deliveries.{run_each}
use rtmp_core.LiveFanout.Viewers.{
  calls_for, header_calls, due, decision, planned_all, calls_for-append, planned_all-append,
  run_each-calls, dispatch_all-calls, decided-planned,
}

-- What is due to a viewer is for its sink.
calls_for-header :
    (kind : MediaKind) (sink : ℕ) (header : Option SharedMediaFrame)
    → calls_for sink (header_calls kind sink header) ≡ header_calls kind sink header
unfolding calls_for
calls_for-header kind sink none = refl
calls_for-header kind sink (some frame) = ground arith

calls_for-header_other :
    (kind : MediaKind) (other sink : ℕ) (header : Option SharedMediaFrame)
    → (other == sink) ≡ false
    → calls_for sink (header_calls kind other header) ≡ []
unfolding calls_for
calls_for-header_other kind other sink none e = refl
calls_for-header_other kind other sink (some frame) e = rw e refl

module _ (state : StreamState) (f : Incoming) where
  calls_for-due :
      (sink : ℕ) (d : Decision) → calls_for sink (due state f sink d) ≡ due state f sink d
  unfolding calls_for
  calls_for-due sink deliver = ground arith
  calls_for-due sink deliver_resumed =
      let v = header_calls video sink state.video_sequence_header in
      let a = header_calls audio sink state.audio_sequence_header in
      let last = sent f.kind sink f.frame ∷ [] in
      let same : calls_for sink last ≡ last = ground arith in
      calls_for-append sink v (a ++ last)
      ∙ rw
          (
            calls_for-header video sink state.video_sequence_header,
            calls_for-append sink a last,
            calls_for-header audio sink state.audio_sequence_header,
            same,
          )
          refl
  calls_for-due sink drop_and_wait = refl
  calls_for-due sink evict = ground arith

  calls_for-due_other :
      (other sink : ℕ) (d : Decision)
      → (other == sink) ≡ false
      → calls_for sink (due state f other d) ≡ []
  unfolding calls_for
  calls_for-due_other other sink deliver e = rw e refl
  calls_for-due_other other sink deliver_resumed e =
      let v = header_calls video other state.video_sequence_header in
      let a = header_calls audio other state.audio_sequence_header in
      let last = sent f.kind other f.frame ∷ [] in
      let none_here : calls_for sink last ≡ [] = rw e refl in
      calls_for-append sink v (a ++ last)
      ∙ rw
          (
            calls_for-header_other video other sink state.video_sequence_header e,
            calls_for-append sink a last,
            calls_for-header_other audio other sink state.audio_sequence_header e,
            none_here,
          )
          refl
  calls_for-due_other other sink drop_and_wait e = refl
  calls_for-due_other other sink evict e = rw e refl

  abbrev pub Other : ℕ → ℕ × Subscriber → Type 0
  Other sink (id, sub) = (sub.sink == sink) ≡ false

  planned_all-one :
      (sink : ℕ) (id : ℕ) (sub : Subscriber) (rest : Subscribers) (o : Outside)
      → calls_for sink (planned_all (dispatch_all state f ((id, sub) ∷ rest) o).0)
        ≡ calls_for sink (due state f sub.sink (decision f sub))
          ++ calls_for sink
              (planned_all (dispatch_all state f rest (dispatch_one state f id sub o).2).0)
  unfolding dispatch_all dispatch_one
  planned_all-one sink id sub rest o =
      let (here, kept, o') = dispatch_one state f id sub o in
      let later = (dispatch_all state f rest o').0 in
      ap (calls_for sink) (planned_all-append here later)
      ∙ calls_for-append sink (planned_all here) (planned_all later)
      ∙ ap (λ cs. calls_for sink cs ++ calls_for sink (planned_all later))
          (decided-planned state f id sub o
            (offer no_backlog (length f.frame.payload) (is_video f.kind) f.is_keyframe sub.queue))

  planned_all-others :
      (sink : ℕ) (subs : Subscribers) (o : Outside)
      → All (Other sink) subs
      → calls_for sink (planned_all (dispatch_all state f subs o).0) ≡ []
  unfolding dispatch_all calls_for
  planned_all-others sink [] o all = refl
  planned_all-others sink ((id, sub) ∷ rest) o (other, all) =
      planned_all-one sink id sub rest o
      ∙ rw (calls_for-due_other sub.sink sink (decision f sub) other)
          (planned_all-others sink rest _ all)

  planned_all-viewer :
      (id : ℕ) (sub : Subscriber) (front back : Subscribers) (o : Outside)
      → All (Other sub.sink) front
      → All (Other sub.sink) back
      → calls_for sub.sink (planned_all (dispatch_all state f (front ++ (id, sub) ∷ back) o).0)
        ≡ due state f sub.sink (decision f sub)
  planned_all-viewer id sub [] back o before behind =
      planned_all-one sub.sink id sub back o
      ∙ rw
          (
            calls_for-due sub.sink (decision f sub),
            planned_all-others sub.sink back (dispatch_one state f id sub o).2 behind,
          )
          (append-nil _)
  planned_all-viewer id sub ((id', sub') ∷ front) back o (other, before) behind =
      planned_all-one sub.sink id' sub' (front ++ (id, sub) ∷ back) o
      ∙ rw (calls_for-due_other sub'.sink sub.sink (decision f sub') other)
          (planned_all-viewer id sub front back _ before behind)

  -- For a viewer whose sink no other viewer of the stream has: when a frame is dispatched and the
  -- deliveries are run, the calls that its sink gets are exactly what its own queue decides - the
  -- frame; the sequence headers that the stream has and then the frame; nothing; or the notice of
  -- its eviction - whatever the other viewers are, and whatever any sink answers.
  pub run_each-dispatch_all :
      (accepts : Sinks) (id : ℕ) (sub : Subscriber) (front back : Subscribers) (o : Outside)
      → All (Other sub.sink) front
      → All (Other sub.sink) back
      → let (deliveries, _, o') = dispatch_all state f (front ++ (id, sub) ∷ back) o in
        let (_, (_, o'')) = run_each accepts deliveries (0, o') in
        calls_for sub.sink o''.calls
        ≡ calls_for sub.sink o.calls ++ due state f sub.sink (decision f sub)
  run_each-dispatch_all accepts id sub front back o before behind =
      let subs = front ++ (id, sub) ∷ back in
      let (deliveries, left, o') = dispatch_all state f subs o in
      ap (calls_for sub.sink) (run_each-calls accepts deliveries (0, o'))
      ∙ calls_for-append sub.sink o'.calls (planned_all deliveries)
      ∙ rw
          (
            dispatch_all-calls state f subs o sub.sink,
            planned_all-viewer id sub front back o before behind,
          )
          refl
