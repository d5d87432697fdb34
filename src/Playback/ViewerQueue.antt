-- ===== src/Playback/ViewerQueue.antt =====
-- include/rtmp_server/protocol/commands/viewer_queue.hpp: the backlog of one viewer, and what becomes
-- of the next frame. Counters keep the width of the source, 64 bits and 32 for packet_count.
pub mod Bounds
pub mod Order
use rtmp_core.Base.{
  ℕ, ◌+◌, ◌-◌, ◌/◌, ◌%◌, ◌^◌, max, Bool, true, false, not, ◌&&◌, ◌||◌, ltb, leb, ◌==◌,
  if◌then◌else◌,
}

pub record QueueLimits : Type 0 where
  pub max_bytes : ℕ
  pub max_packets : ℕ

pub record QueueBacklog : Type 0 where
  pub bytes : ℕ
  pub packets : ℕ

pub data State : Type 0 where
  normal waiting_for_keyframe : State

pub data Decision : Type 0 where
  deliver deliver_resumed drop_and_wait evict : Decision

pub record ViewerQueue : Type 0 where
  pub limits : QueueLimits
  pub max_frames_waiting_for_keyframe : ℕ
  pub state : State
  pub frames_waited : ℕ
  pub bytes : ℕ
  pub packet_count : ℕ

abbrev pub new_queue : QueueLimits → ℕ → ViewerQueue
new_queue limits n = record {
  limits = limits;
  max_frames_waiting_for_keyframe = n;
  state = normal;
  frames_waited = 0;
  bytes = 0;
  packet_count = 0;
}

unfoldable pub over_budget : QueueBacklog → ℕ → ViewerQueue → Bool
over_budget external extra_frame_bytes q =
    let total_bytes = (q.bytes + external.bytes + extra_frame_bytes) % 2 ^ 64 in
    let total_packets = (q.packet_count + external.packets) % 2 ^ 64 in
    (not (q.limits.max_bytes == 0) && ltb q.limits.max_bytes total_bytes)
    || (not (q.limits.max_packets == 0) && ltb q.limits.max_packets total_packets)

unfoldable pub below_resume_watermark : QueueBacklog → ViewerQueue → Bool
below_resume_watermark external q =
    ((q.limits.max_bytes == 0) || leb external.bytes (max 1 (q.limits.max_bytes / 2)))
    && ((q.limits.max_packets == 0) || leb external.packets (max 1 (q.limits.max_packets / 2)))

abbrev pub count_frame : ℕ → ViewerQueue → ViewerQueue
count_frame frame_bytes q = record q {
  bytes = (q.bytes + frame_bytes) % 2 ^ 64;
  packet_count = (q.packet_count + 1) % 2 ^ 32;
}

-- state_ and frames_waited_ set, and the counters reset.
abbrev pub restart : State → ViewerQueue → ViewerQueue
restart s q = record q { state = s; frames_waited = 0; bytes = 0; packet_count = 0 }

unfoldable pub offer_waiting : QueueBacklog → Bool → Bool → ViewerQueue → Decision × ViewerQueue
offer_waiting external is_video is_keyframe q =
    let waited = (q.frames_waited + 1) % 2 ^ 64 in
    if is_video && is_keyframe && below_resume_watermark external q
    then (deliver_resumed, restart normal q)
    else if ltb q.max_frames_waiting_for_keyframe waited
    then (evict, record q { frames_waited = waited })
    else (drop_and_wait, record q { frames_waited = waited })

unfoldable pub offer_normal : QueueBacklog → ℕ → ViewerQueue → Decision × ViewerQueue
offer_normal external frame_bytes q =
    let counted = count_frame frame_bytes q in
    if over_budget external 0 q
    then (drop_and_wait, restart waiting_for_keyframe q)
    else if over_budget external 0 counted
    then (deliver, restart waiting_for_keyframe counted)
    else (deliver, counted)

abbrev pub offer_in : State → QueueBacklog → ℕ → Bool → Bool → ViewerQueue → Decision × ViewerQueue
offer_in waiting_for_keyframe external frame_bytes is_video is_keyframe q =
    offer_waiting external is_video is_keyframe q
offer_in normal external frame_bytes is_video is_keyframe q = offer_normal external frame_bytes q

unfoldable pub offer : QueueBacklog → ℕ → Bool → Bool → ViewerQueue → Decision × ViewerQueue
offer external frame_bytes is_video is_keyframe q =
    offer_in q.state external frame_bytes is_video is_keyframe q

unfoldable pub note_flushed : ℕ → ViewerQueue → ViewerQueue
note_flushed frame_bytes q = record q {
  bytes = if leb q.bytes frame_bytes then 0 else q.bytes - frame_bytes;
  packet_count = if q.packet_count == 0 then 0 else q.packet_count - 1;
}
