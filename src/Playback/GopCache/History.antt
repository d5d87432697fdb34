-- ===== src/Playback/GopCache/History.antt =====
-- What the cache holds after any history of its operations (gop_cache.hpp).
use rtmp_core.Base.{
  suc, ◌≡◌, ◌⊎◌, refl, ◌∙◌, ap, inl, inr, true, false, not, ◌==◌, List, [], ◌∷◌, ◌++◌, length,
  arith, Bool-cases,
}
use rtmp_core.Playback.GopCache.{
  SharedMediaFrame, GopLimits, GopCache, empty_cache, clear, push_internal, begin_new_gop, push,
  over_limits, has_gop, enforce_limits,
}

pub data Event : Type 0 where
  keyframe : SharedMediaFrame → Event
  frame : SharedMediaFrame → Event
  cleared : Event

abbrev pub apply : Event → GopCache → GopCache
apply (keyframe f) c = begin_new_gop f c
apply (frame f) c = (push f c).1
apply cleared c = clear c

-- The latest event first.
unfoldable pub after : List Event → GopLimits → GopCache
after [] limits = empty_cache limits
after (e ∷ earlier) limits = apply e (after earlier limits)

-- What was sent since the latest keyframe, which is its first frame.
abbrev pub followed_by : List SharedMediaFrame → SharedMediaFrame → List SharedMediaFrame
followed_by [] f = []
followed_by (k ∷ fs) f = k ∷ (fs ++ f ∷ [])

unfoldable pub since_keyframe : List Event → List SharedMediaFrame
since_keyframe [] = []
since_keyframe (keyframe f ∷ earlier) = f ∷ []
since_keyframe (frame f ∷ earlier) = followed_by (since_keyframe earlier) f
since_keyframe (cleared ∷ earlier) = []

-- Either nothing, or just that.
abbrev pub Whole : List SharedMediaFrame → List SharedMediaFrame → Type 0
Whole held sent = (held ≡ []) ⊎ (held ≡ sent)

pub push-empty : (f : SharedMediaFrame) (c : GopCache) → c.frames ≡ [] → push f c ≡ (false, c)
unfolding push
push-empty f c e = let h : has_gop c ≡ false = ap (λ fs. not (length fs == 0)) e in rw h refl

pub push-open :
    (f : SharedMediaFrame) (c : GopCache)
    → has_gop c ≡ true
    → push f c ≡ (true, enforce_limits (push_internal f c))
unfolding push
push-open f c h = rw h refl

pub push-shut : (f : SharedMediaFrame) (c : GopCache) → has_gop c ≡ false → push f c ≡ (false, c)
unfolding push
push-shut f c h = rw h refl

has_gop-frames :
    (k : SharedMediaFrame) (fs : List SharedMediaFrame) (c : GopCache)
    → c.frames ≡ k ∷ fs
    → has_gop c ≡ true
has_gop-frames k fs c e =
    let h : (suc (length fs) == 0) ≡ false = ground arith in
    ap (λ gs. not (length gs == 0)) e ∙ ap not h

push-Whole :
    (f : SharedMediaFrame) (c : GopCache) (sent : List SharedMediaFrame)
    → Whole c.frames sent
    → Whole (push f c).1.frames (followed_by sent f)
push-Whole f c sent (inl e) = rw (push-empty f c e) (inl e)
push-Whole f c [] (inr e) = rw (push-empty f c e) (inl e)
push-Whole f c (k ∷ sent) (inr e) = elim (Bool-cases (over_limits (push_internal f c))) [
  | inl over ↦ rw (push-open f c (has_gop-frames k sent c e), over) (inl refl)
  | inr fine ↦
      rw (push-open f c (has_gop-frames k sent c e), fine) (inr (ap (λ fs. fs ++ f ∷ []) e))
]

-- After any history of keyframes, other frames and clearings, the cache is empty or holds exactly
-- what was sent since the latest keyframe, the keyframe first and no frame missing: never a group of
-- pictures that is cut off.
pub after-Whole :
    (history : List Event) (limits : GopLimits)
    → Whole (after history limits).frames (since_keyframe history)
unfolding after since_keyframe
after-Whole [] limits = inl refl
after-Whole (keyframe f ∷ earlier) limits = inr refl
after-Whole (frame f ∷ earlier) limits =
    push-Whole f (after earlier limits) (since_keyframe earlier) (after-Whole earlier limits)
after-Whole (cleared ∷ earlier) limits = inl refl
