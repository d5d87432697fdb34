-- ===== src/Playback/GopCache/Bounds.antt =====
-- The byte count, the first timestamp and the limits of the cache (gop_cache.hpp).
use rtmp_core.Base.{
  ℕ, ◌+◌, ◌%◌, ◌^◌, ◌≤◌, ◌≢◌, ◌≡◌, refl, ◌∙◌, ap, inl, inr, Bool, true, false, not, ◌&&◌, ◌||◌, ltb,
  ◌==◌, Option, none, some, List, [], ◌∷◌, ◌++◌, length, arith, Bool-cases,
}
use mathlib.Core.Path.{subst}
use rtmp_core.Playback.GopCache.{
  SharedMediaFrame, GopLimits, GopCache, empty_cache, clear, push_internal, begin_new_gop, push,
  over_limits, has_gop, longer_than, latest_timestamp, or_else,
}
use rtmp_core.Playback.GopCache.History.{
  Event, keyframe, frame, cleared, after, push-open, push-shut,
}

abbrev pub payload_bytes : List SharedMediaFrame → ℕ
payload_bytes [] = 0
payload_bytes (f ∷ fs) = length f.payload + payload_bytes fs

abbrev pub first_timestamp : List SharedMediaFrame → Option ℕ
first_timestamp [] = none
first_timestamp (f ∷ fs) = some f.timestamp

-- The count of bytes is what the frames hold, the start is the first frame's timestamp.
pub record Counted (c : GopCache) : Type 0 where
  pub bytes : c.total_bytes ≡ payload_bytes c.frames % 2 ^ 64
  pub start : c.start_timestamp ≡ first_timestamp c.frames

-- Unless the cache holds no more than a keyframe, it is within the limits that are set.
pub record Limited (c : GopCache) : Type 0 where
  pub bytes : 2 ≤ length c.frames → c.limits.max_bytes ≢ 0 → c.total_bytes ≤ c.limits.max_bytes
  pub packets :
      2 ≤ length c.frames → c.limits.max_packets ≢ 0 → length c.frames ≤ c.limits.max_packets
  pub duration :
      (start : ℕ)
      → c.start_timestamp ≡ some start
      → 2 ≤ length c.frames
      → c.limits.max_duration ≢ 0
      → latest_timestamp c.frames ≤ start + c.limits.max_duration

payload_bytes-append :
    (fs gs : List SharedMediaFrame) → payload_bytes (fs ++ gs) ≡ payload_bytes fs + payload_bytes gs
payload_bytes-append [] gs = omega arith
payload_bytes-append (f ∷ fs) gs = omega (arith, payload_bytes-append fs gs)

or_else-first :
    (fs : List SharedMediaFrame) (f : SharedMediaFrame)
    → or_else (first_timestamp fs) f.timestamp ≡ first_timestamp (fs ++ f ∷ [])
or_else-first [] f = refl
or_else-first (g ∷ fs) f = refl

push_internal-Counted :
    (f : SharedMediaFrame) (c : GopCache) → Counted c → Counted (push_internal f c)
push_internal-Counted f c k = record {
  bytes = omega (arith, k.bytes, payload_bytes-append c.frames (f ∷ []));
  start = ap (λ s. or_else s f.timestamp) k.start ∙ or_else-first c.frames f;
}

cleared-Counted : (c : GopCache) → Counted (clear c)
cleared-Counted c = record { bytes = omega arith; start = refl }

small-Limited : (c : GopCache) → length c.frames ≤ 1 → Limited c
small-Limited c h = record {
  bytes = λ two. absurd (omega arith);
  packets = λ two. absurd (omega arith);
  duration = λ start e two. absurd (omega arith);
}

third : (a b d g l : Bool) → (a || b || (d && g && l)) ≡ false → d ≡ true → (g && l) ≡ false
third a b d g l h e = ground arith

not_longer :
    (c : GopCache) (start : ℕ)
    → (has_gop c && longer_than c.limits.max_duration (latest_timestamp c.frames) (some start))
      ≡ false
    → 2 ≤ length c.frames
    → latest_timestamp c.frames ≤ start + c.limits.max_duration
not_longer c start e two = ground arith

within-Limited : (c : GopCache) → over_limits c ≡ false → Limited c
unfolding over_limits
within-Limited c h = record {
  bytes = λ two ne. ground arith;
  packets = λ two ne. ground arith;
  duration = λ start e two ne.
      let set : not (c.limits.max_duration == 0) ≡ true = ground arith in
      not_longer c start
        (subst
          (λ o.
            (has_gop c && longer_than c.limits.max_duration (latest_timestamp c.frames) o) ≡ false)
          e
          (third (not (c.limits.max_bytes == 0) && ltb c.limits.max_bytes c.total_bytes)
            (not (c.limits.max_packets == 0) && ltb c.limits.max_packets (length c.frames))
            (not (c.limits.max_duration == 0)) (has_gop c)
            (longer_than c.limits.max_duration (latest_timestamp c.frames) c.start_timestamp) h
            set))
        two;
}

record Kept (c : GopCache) : Type 0 where
  pub counted : Counted c
  pub limited : Limited c

cleared-Kept : (c : GopCache) → Kept (clear c)
cleared-Kept c = record {
  counted = cleared-Counted c;
  limited = small-Limited (clear c) (omega arith);
}

push-Kept : (f : SharedMediaFrame) (c : GopCache) → Kept c → Kept (push f c).1
push-Kept f c k = elim (Bool-cases (has_gop c)) [
  | inr h ↦ rw (push-shut f c h) k
  | inl h ↦ elim (Bool-cases (over_limits (push_internal f c))) [
    | inl over ↦ rw (push-open f c h, over) (cleared-Kept (push_internal f c))
    | inr fine ↦
        rw (push-open f c h, fine)
          (record {
            counted = push_internal-Counted f c k.counted;
            limited = within-Limited (push_internal f c) fine;
          })
  ]
]

after-Kept : (history : List Event) (limits : GopLimits) → Kept (after history limits)
unfolding after
after-Kept [] limits = cleared-Kept (empty_cache limits)
after-Kept (keyframe f ∷ earlier) limits =
    let c = after earlier limits in
    record {
      counted = push_internal-Counted f (clear c) (cleared-Counted c);
      limited = small-Limited (begin_new_gop f c) (omega arith);
    }
after-Kept (frame f ∷ earlier) limits =
    push-Kept f (after earlier limits) (after-Kept earlier limits)
after-Kept (cleared ∷ earlier) limits = cleared-Kept (after earlier limits)

-- After any history of keyframes, other frames and clearings, the byte count is what the frames of the
-- cache hold, modulo 2 ^ 64, and the start its first frame's timestamp; and when the cache holds
-- more than a keyframe, its bytes, its frames and the time from its first frame to its last are
-- within the limits that are set.
pub after-Limited :
    (history : List Event) (limits : GopLimits)
    → Counted (after history limits) × Limited (after history limits)
after-Limited history limits = let k = after-Kept history limits in (k.counted, k.limited)
