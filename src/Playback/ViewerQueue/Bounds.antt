-- ===== src/Playback/ViewerQueue/Bounds.antt =====
-- What offer and note_flushed keep of the counters (viewer_queue.hpp).
use rtmp_core.Base.{
  ℕ, ◌+◌, ◌%◌, sym, ◌∙◌, ◌⊎◌, ap, ◌^◌, ◌≤◌, ◌<◌, ◌≢◌, ◌≡◌, refl, inl, inr, Bool, false, ltb, ◌&&◌,
  arith, Bool-cases,
}
use rtmp_core.Playback.ViewerQueue.{
  QueueBacklog, State, normal, waiting_for_keyframe, ViewerQueue, over_budget, offer, offer_in,
  offer_normal, offer_waiting, count_frame, restart, below_resume_watermark,
}

-- The counters are within the limits that are set, and 0 while the queue waits for a keyframe.
pub record Bounded (q : ViewerQueue) : Type 0 where
  pub few_bytes : q.limits.max_bytes ≢ 0 → q.bytes ≤ q.limits.max_bytes
  pub few_packets : q.limits.max_packets ≢ 0 → q.packet_count ≤ q.limits.max_packets
  pub shed : q.state ≡ waiting_for_keyframe → (q.bytes ≡ 0) × (q.packet_count ≡ 0)

-- What the counters hold with the frame and the backlog of the transport fits their widths.
pub record Fits (external : QueueBacklog) (frame_bytes : ℕ) (q : ViewerQueue) : Type 0 where
  pub bytes_fit : q.bytes + external.bytes + frame_bytes < 2 ^ 64
  pub packets_fit : q.packet_count + 1 < 2 ^ 32
  pub total_fits : q.packet_count + external.packets + 1 < 2 ^ 64

normal≢waiting : normal ≢ waiting_for_keyframe
normal≢waiting e = cc

pub State-cases : (s : State) → (s ≡ normal) ⊎ (s ≡ waiting_for_keyframe)
State-cases normal = inl refl
State-cases waiting_for_keyframe = inr refl

restart-Bounded : (s : State) (q : ViewerQueue) → Bounded (restart s q)
restart-Bounded s q = record {
  few_bytes = λ h. omega arith;
  few_packets = λ h. omega arith;
  shed = λ e. (refl, refl);
}

within_budget :
    (external : QueueBacklog) (q : ViewerQueue)
    → over_budget external 0 q ≡ false
    → q.bytes + external.bytes < 2 ^ 64
    → q.packet_count + external.packets < 2 ^ 64
    → (q.limits.max_bytes ≢ 0 → q.bytes ≤ q.limits.max_bytes)
      × (q.limits.max_packets ≢ 0 → q.packet_count ≤ q.limits.max_packets)
unfolding over_budget
within_budget external q h b p = (λ ne. ground arith, λ ne. ground arith)

offer_waiting-Bounded :
    (external : QueueBacklog) (is_video is_keyframe : Bool) (q : ViewerQueue)
    → Bounded q
    → Bounded (offer_waiting external is_video is_keyframe q).1
unfolding offer_waiting
offer_waiting-Bounded external video key q b =
    elim (Bool-cases (video && key && below_resume_watermark external q)) [
      | inl r ↦ rw r (restart-Bounded normal q)
      | inr r ↦
          elim (Bool-cases
            (ltb q.max_frames_waiting_for_keyframe ((q.frames_waited + 1) % 2 ^ 64))) [
              | inl l ↦ rw (r, l) kept
              | inr l ↦ rw (r, l) kept
            ]
    ]
  where
    kept : Bounded (record q { frames_waited = (q.frames_waited + 1) % 2 ^ 64 })
    kept = record { few_bytes = b.few_bytes; few_packets = b.few_packets; shed = b.shed }

offer_normal-Bounded :
    (external : QueueBacklog) (frame_bytes : ℕ) (q : ViewerQueue)
    → q.state ≡ normal
    → Fits external frame_bytes q
    → Bounded (offer_normal external frame_bytes q).1
unfolding offer_normal
offer_normal-Bounded external n q e f = elim (Bool-cases (over_budget external 0 q)) [
  | inl o ↦ rw o (restart-Bounded waiting_for_keyframe q)
  | inr o ↦ elim (Bool-cases (over_budget external 0 (count_frame n q))) [
    | inl over ↦ rw (o, over) (restart-Bounded waiting_for_keyframe (count_frame n q))
    | inr under ↦
        let (few_bytes, few_packets) =
          within_budget external (count_frame n q) under (omega (arith, f.bytes_fit))
            (omega (arith, f.packets_fit, f.total_fits)) in
        rw (o, under)
          (record {
            few_bytes = few_bytes;
            few_packets = few_packets;
            shed = λ w. absurd (normal≢waiting (sym e ∙ w));
          })
  ]
]

pub offer-normal :
    (external : QueueBacklog) (frame_bytes : ℕ) (is_video is_keyframe : Bool) (q : ViewerQueue)
    → q.state ≡ normal
    → offer external frame_bytes is_video is_keyframe q ≡ offer_normal external frame_bytes q
unfolding offer
offer-normal external n video key q e = ap (λ s. offer_in s external n video key q) e

pub offer-waiting :
    (external : QueueBacklog) (frame_bytes : ℕ) (is_video is_keyframe : Bool) (q : ViewerQueue)
    → q.state ≡ waiting_for_keyframe
    → offer external frame_bytes is_video is_keyframe q
      ≡ offer_waiting external is_video is_keyframe q
unfolding offer
offer-waiting external n video key q e = ap (λ s. offer_in s external n video key q) e

-- An offer keeps the counters of the viewer within the limits that are set, and leaves them at 0
-- when it leaves the viewer waiting for a keyframe, as long as the sums fit the width of the
-- counters: the frame that crosses a limit is delivered, but not left in the counters.
pub offer-Bounded :
    (external : QueueBacklog) (frame_bytes : ℕ) (is_video is_keyframe : Bool) (q : ViewerQueue)
    → Bounded q
    → Fits external frame_bytes q
    → Bounded (offer external frame_bytes is_video is_keyframe q).1
offer-Bounded external n video key q b f = elim (State-cases q.state) [
  | inl e ↦ rw (offer-normal external n video key q e) (offer_normal-Bounded external n q e f)
  | inr e ↦
      rw (offer-waiting external n video key q e) (offer_waiting-Bounded external video key q b)
]
