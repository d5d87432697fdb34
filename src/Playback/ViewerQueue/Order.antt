-- ===== src/Playback/ViewerQueue/Order.antt =====
-- The decisions of offer over a sequence of frames (viewer_queue.hpp).
use rtmp_core.Base.{
  ℕ, zero, suc, ◌+◌, ◌%◌, ◌^◌, ◌<◌, ◌≡◌, refl, ◌∙◌, inl, inr, Bool, true, false, ltb, if◌then◌else◌,
  ◌&&◌, arith, Bool-cases, List, [], ◌∷◌, ◌++◌, length, All, ap,
}
use rtmp_core.Playback.ViewerQueue.{
  QueueBacklog, waiting_for_keyframe, Decision, ViewerQueue, over_budget, offer, offer_normal,
  offer_waiting, count_frame, below_resume_watermark, deliver, deliver_resumed, drop_and_wait,
  evict,
}
use rtmp_core.Playback.ViewerQueue.Bounds.{State-cases, offer-normal, offer-waiting}

pub record Offer : Type 0 where
  pub external : QueueBacklog
  pub frame_bytes : ℕ
  pub is_video : Bool
  pub is_keyframe : Bool

abbrev pub offer_one : Offer → ViewerQueue → Decision × ViewerQueue
offer_one o q = offer o.external o.frame_bytes o.is_video o.is_keyframe q

-- The frames offered to one viewer, with what was decided on each.
unfoldable pub decisions : List Offer → ViewerQueue → List (Offer × Decision)
decisions [] q = []
decisions (o ∷ rest) q = (o, (offer_one o q).0) ∷ decisions rest (offer_one o q).1

-- After a frame that was dropped (`stopped`), the next frame delivered is a video keyframe, and
-- delivered as the one that resumes.
abbrev pub Resumes : Bool → List (Offer × Decision) → Type 0
Resumes stopped [] = Unit
Resumes stopped ((o, deliver) ∷ rest) = (stopped ≡ false) × Resumes false rest
Resumes stopped ((o, deliver_resumed) ∷ rest) =
    (o.is_video ≡ true) × (o.is_keyframe ≡ true) × Resumes false rest
Resumes stopped ((o, drop_and_wait) ∷ rest) = Resumes true rest
Resumes stopped ((o, evict) ∷ rest) = Resumes true rest

-- What one offer decides and leaves, by the state it finds.
data Outcome (o : Offer) (stopped : Bool) : Decision × ViewerQueue → Type 0 where
  delivered : {q : ViewerQueue} → stopped ≡ false → Outcome o stopped (deliver, q)
  resumed :
      {q : ViewerQueue}
      → o.is_video ≡ true
      → o.is_keyframe ≡ true
      → Outcome o stopped (deliver_resumed, q)
  dropped :
      {q : ViewerQueue} → q.state ≡ waiting_for_keyframe → Outcome o stopped (drop_and_wait, q)
  evicted : {q : ViewerQueue} → q.state ≡ waiting_for_keyframe → Outcome o stopped (evict, q)

both : (a b c : Bool) → (a && b && c) ≡ true → (a ≡ true) × (b ≡ true)
both a b c h = ground arith

offer_waiting-Outcome :
    (o : Offer) (stopped : Bool) (q : ViewerQueue)
    → q.state ≡ waiting_for_keyframe
    → Outcome o stopped (offer_waiting o.external o.is_video o.is_keyframe q)
unfolding offer_waiting
offer_waiting-Outcome o stopped q e =
    let ready = below_resume_watermark o.external q in
    elim (Bool-cases (o.is_video && o.is_keyframe && ready)) [
      | inl r ↦ let (video, key) = both o.is_video o.is_keyframe ready r in rw r (resumed video key)
      | inr r ↦
          elim (Bool-cases
            (ltb q.max_frames_waiting_for_keyframe ((q.frames_waited + 1) % 2 ^ 64))) [
              | inl l ↦ rw (r, l) (evicted e)
              | inr l ↦ rw (r, l) (dropped e)
            ]
    ]

offer_normal-Outcome :
    (o : Offer) (q : ViewerQueue) → Outcome o false (offer_normal o.external o.frame_bytes q)
unfolding offer_normal
offer_normal-Outcome o q = elim (Bool-cases (over_budget o.external 0 q)) [
  | inl over ↦ rw over (dropped refl)
  | inr fine ↦ elim (Bool-cases (over_budget o.external 0 (count_frame o.frame_bytes q))) [
    | inl over ↦ rw (fine, over) (delivered refl)
    | inr under ↦ rw (fine, under) (delivered refl)
  ]
]

offer-Outcome :
    (o : Offer) (stopped : Bool) (q : ViewerQueue)
    → (stopped ≡ true → q.state ≡ waiting_for_keyframe)
    → Outcome o stopped (offer_one o q)
offer-Outcome o true q w =
    rw (offer-waiting o.external o.frame_bytes o.is_video o.is_keyframe q (w refl))
      (offer_waiting-Outcome o true q (w refl))
offer-Outcome o false q w = elim (State-cases q.state) [
  | inl e ↦
      rw (offer-normal o.external o.frame_bytes o.is_video o.is_keyframe q e)
        (offer_normal-Outcome o q)
  | inr e ↦
      rw (offer-waiting o.external o.frame_bytes o.is_video o.is_keyframe q e)
        (offer_waiting-Outcome o false q e)
]

decisions-after :
    (os : List Offer) (stopped : Bool) (q : ViewerQueue)
    → (stopped ≡ true → q.state ≡ waiting_for_keyframe)
    → Resumes stopped (decisions os q)
unfolding decisions
decisions-after [] stopped q w = tt
decisions-after (o ∷ os) stopped q w =
    go (decisions-after os) (offer_one o q) (offer-Outcome o stopped q w)
  where
    go :
        ((s : Bool) (q' : ViewerQueue)
          → (s ≡ true → q'.state ≡ waiting_for_keyframe)
          → Resumes s (decisions os q'))
        → (r : Decision × ViewerQueue) → Outcome o stopped r
        → Resumes stopped ((o, r.0) ∷ decisions os r.1)
    go ih (deliver, q') (delivered s) = (s, ih false q' (λ e. cc))
    go ih (deliver_resumed, q') (resumed v k) = (v, k, ih false q' (λ e. cc))
    go ih (drop_and_wait, q') (dropped e) = ih true q' (λ _. e)
    go ih (evict, q') (evicted e) = ih true q' (λ _. e)

-- Whatever frames are offered to a viewer and whatever its backlog, once a frame was dropped no
-- frame is delivered before a video keyframe resumes it, and that keyframe is reported as the one
-- before which the sequence headers go out again.
pub decisions-Resumes : (os : List Offer) (q : ViewerQueue) → Resumes false (decisions os q)
decisions-Resumes os q = decisions-after os false q (λ e. cc)

-- A frame that cannot resume the viewer.
abbrev pub Stalls : Offer → Type 0
Stalls o = (o.is_video && o.is_keyframe) ≡ false

abbrev pub decision_list : List (Offer × Decision) → List Decision
decision_list [] = []
decision_list ((o, d) ∷ rest) = d ∷ decision_list rest

abbrev pub drops : ℕ → List Decision
drops zero = []
drops (suc n) = drop_and_wait ∷ drops n

not_ready : (a b c : Bool) → (a && b) ≡ false → (a && b && c) ≡ false
not_ready a b c h = ground arith

offer_one-Stalls :
    (o : Offer) (q : ViewerQueue)
    → Stalls o
    → q.state ≡ waiting_for_keyframe
    → q.frames_waited + 1 < 2 ^ 64
    → offer_one o q ≡ (
        if ltb q.max_frames_waiting_for_keyframe (q.frames_waited + 1)
        then (evict, record q { frames_waited = q.frames_waited + 1 })
        else (drop_and_wait, record q { frames_waited = q.frames_waited + 1 }))
unfolding offer_waiting
offer_one-Stalls o q s e small =
    let m : (q.frames_waited + 1) % 2 ^ 64 ≡ q.frames_waited + 1 = omega arith in
    let r = not_ready o.is_video o.is_keyframe (below_resume_watermark o.external q) s in
    offer-waiting o.external o.frame_bytes o.is_video o.is_keyframe q e ∙ rw (r, m) refl

-- A viewer that waits for a keyframe and is offered none drops as many frames as are left of the
-- limit, and is evicted by the next one.
pub decisions-stuck :
    (os : List Offer) (last : Offer) (q : ViewerQueue)
    → All Stalls os
    → Stalls last
    → q.state ≡ waiting_for_keyframe
    → q.frames_waited + length os ≡ q.max_frames_waiting_for_keyframe
    → q.max_frames_waiting_for_keyframe + 1 < 2 ^ 64
    → decision_list (decisions (os ++ last ∷ []) q) ≡ drops (length os) ++ evict ∷ []
unfolding decisions
decisions-stuck [] last q all s e n small =
    let over : ltb q.max_frames_waiting_for_keyframe (q.frames_waited + 1) ≡ true = ground arith in
    rw (offer_one-Stalls last q s e (omega arith), over) refl
decisions-stuck (o ∷ os) last q (so, all) s e n small =
    let under : ltb q.max_frames_waiting_for_keyframe (q.frames_waited + 1) ≡ false =
      ground arith in
    let q' : ViewerQueue = record q { frames_waited = q.frames_waited + 1 } in
    rw (offer_one-Stalls o q so e (omega arith), under)
      (ap (◌∷◌ drop_and_wait) (decisions-stuck os last q' all s e (omega arith) small))
