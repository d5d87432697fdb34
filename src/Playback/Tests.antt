-- ===== src/Playback/Tests.antt =====
-- A viewer and a cache at concrete frames (include/rtmp_server/protocol/commands).
use rtmp_core.Base.{ℕ, ◌≡◌, refl, List, [], ◌∷◌, ◌++◌, arith, true, false}
use rtmp_core.Playback.ViewerQueue.{
  QueueBacklog, ViewerQueue, new_queue, restart, waiting_for_keyframe, offer, evict,
}
use rtmp_core.Playback.ViewerQueue.Order.{
  Offer, decisions, Resumes, decisions-Resumes, decisions-stuck, decision_list, drops,
}
use rtmp_core.Playback.ViewerQueue.Bounds.{Bounded, offer-Bounded}
use rtmp_core.Playback.GopCache.{SharedMediaFrame, GopLimits}
use rtmp_core.Playback.GopCache.History.{
  Event, keyframe, frame, after, Whole, since_keyframe, after-Whole,
}
use rtmp_core.Playback.GopCache.Bounds.{Counted, Limited, after-Limited}

abbrev queue : ViewerQueue
queue = new_queue (record { max_bytes = 100; max_packets = 10 }) 2

abbrev stalled : ViewerQueue
stalled = restart waiting_for_keyframe queue

abbrev empty_backlog : QueueBacklog
empty_backlog = record { bytes = 0; packets = 0 }

abbrev audio : Offer
audio = record { external = empty_backlog; frame_bytes = 60; is_video = false; is_keyframe = false }

abbrev key : Offer
key = record { external = empty_backlog; frame_bytes = 90; is_video = true; is_keyframe = true }

decisions-Resumes_example :
    Resumes false (decisions (audio ∷ audio ∷ audio ∷ key ∷ audio ∷ []) queue)
decisions-Resumes_example = decisions-Resumes (audio ∷ audio ∷ audio ∷ key ∷ audio ∷ []) queue

decisions-stuck_example :
    decision_list (decisions ((audio ∷ audio ∷ []) ++ audio ∷ []) stalled) ≡ drops 2 ++ evict ∷ []
decisions-stuck_example =
    decisions-stuck (audio ∷ audio ∷ []) audio stalled (refl, (refl, tt)) refl refl (omega arith)
      (omega arith)

queue-Bounded : Bounded queue
queue-Bounded = record {
  few_bytes = λ h. omega arith;
  few_packets = λ h. omega arith;
  shed = λ e. (refl, refl);
}

offer-Bounded_example : Bounded (offer empty_backlog 60 true false queue).1
offer-Bounded_example =
    offer-Bounded empty_backlog 60 true false queue queue-Bounded
      (record { bytes_fit = omega arith; packets_fit = omega arith; total_fits = omega arith })

abbrev limits : GopLimits
limits = record { max_bytes = 100; max_packets = 3; max_duration = 1000 }

abbrev picture : ℕ → SharedMediaFrame
picture t = record { payload = 1 ∷ 2 ∷ []; message_type_id = 9; timestamp = t }

-- The latest event first.
abbrev history : List Event
history = frame (picture 40) ∷ frame (picture 20) ∷ keyframe (picture 0) ∷ frame (picture 7) ∷ []

after-Whole_example : Whole (after history limits).frames (since_keyframe history)
after-Whole_example = after-Whole history limits

after-Limited_example : Counted (after history limits) × Limited (after history limits)
after-Limited_example = after-Limited history limits
