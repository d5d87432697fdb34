-- ===== src/LiveFanout/Startup/Headers.antt =====
-- The metadata and the sequence headers that a new viewer gets, by what was published
-- (src/protocol/commands/live_fanout.cpp).
use rtmp_core.Base.{
  ℕ, ◌/◌, ◌%◌, ◌^◌, ◌≡◌, refl, sym, ap, ◌∙◌, inl, inr, true, false, Option, none, some, List, [],
  ◌∷◌, ◌++◌, All, length, arith, ◌==◌, if◌then◌else◌, Bool-cases,
}
use mathlib.Core.Path.{subst}
use rtmp_core.Base.Table.{lookup}
use rtmp_core.Core.ByteOrder.{byte_at}
use rtmp_core.Playback.GopCache.{SharedMediaFrame, GopCache, empty_cache}
use rtmp_core.Playback.GopCache.History.{after, since_keyframe, Whole, after-Whole}
use rtmp_core.LiveFanout.State.{
  MediaKind, video, audio, metadata, subscribed, Sinks, StreamState, LiveFanout,
}
use rtmp_core.LiveFanout.Classify.{
  has_video_header, has_audio_header, classify_is_video_sequence_header,
  classify_is_audio_sequence_header,
}
use rtmp_core.Media.Ingest.Tags.{classify_video_tag, classify_audio_tag, video_info, audio_info}
use rtmp_core.LiveFanout.Viewers.{header_calls}
use rtmp_core.LiveFanout.{
  state_for, subscribe, cache_video, cache_audio, cache_metadata, header_kind, optional,
}
use rtmp_core.LiveFanout.Startup.{
  Frame, video_frame, audio_frame, metadata_frame, publish_one, publish_all, history_of, Content,
  publish-content, publish_all-after, subscribe-calls, sent_all,
}

abbrev pub metadata_of : Frame → Option SharedMediaFrame
metadata_of (metadata_frame f) = some f
metadata_of (video_frame f) = none
metadata_of (audio_frame f) = none

abbrev pub video_header_of : Frame → Option SharedMediaFrame
video_header_of (video_frame f) = if classify_is_video_sequence_header f then some f else none
video_header_of (audio_frame f) = none
video_header_of (metadata_frame f) = none

abbrev pub audio_header_of : Frame → Option SharedMediaFrame
audio_header_of (audio_frame f) = if classify_is_audio_sequence_header f then some f else none
audio_header_of (video_frame f) = none
audio_header_of (metadata_frame f) = none

abbrev pub newer : Option SharedMediaFrame → Option SharedMediaFrame → Option SharedMediaFrame
newer none earlier = earlier
newer (some f) earlier = some f

-- The last one of the frames, or else the earlier one.
abbrev pub latest :
    (Frame → Option SharedMediaFrame)
    → List Frame
    → Option SharedMediaFrame
    → Option SharedMediaFrame
latest pick [] earlier = earlier
latest pick (f ∷ fs) earlier = latest pick fs (newer (pick f) earlier)

abbrev Headers : Type 0
Headers = Option SharedMediaFrame × Option SharedMediaFrame × Option SharedMediaFrame

abbrev headers : StreamState → Headers
headers s = (s.metadata_frame, s.video_sequence_header, s.audio_sequence_header)

abbrev latest_all : List Frame → Headers → Headers
latest_all fs (m, v, a) =
    (latest metadata_of fs m, latest video_header_of fs v, latest audio_header_of fs a)

publish_one-headers :
    (accepts : Sinks) (stream_id : ℕ) (f : Frame) (l : LiveFanout)
    → headers (state_for stream_id (publish_one accepts stream_id f l))
      ≡ latest_all (f ∷ []) (headers (state_for stream_id l))
unfolding cache_video cache_audio
publish_one-headers accepts stream_id (video_frame f) l =
    let before = state_for stream_id l in
    ap (λ (c : Content). (c.0, c.1, c.2))
      (publish-content accepts _ _ false (cache_video f before) l)
    ∙ ground arith
publish_one-headers accepts stream_id (audio_frame f) l =
    let before = state_for stream_id l in
    ap (λ (c : Content). (c.0, c.1, c.2))
      (publish-content accepts _ _ false (cache_audio f before) l)
    ∙ ground arith
publish_one-headers accepts stream_id (metadata_frame f) l =
    let before = state_for stream_id l in
    ap (λ (c : Content). (c.0, c.1, c.2))
      (publish-content accepts _ _ false (cache_metadata f before) l)

publish_all-headers :
    (accepts : Sinks) (stream_id : ℕ) (fs : List Frame) (l : LiveFanout)
    → headers (state_for stream_id (publish_all accepts stream_id fs l))
      ≡ latest_all fs (headers (state_for stream_id l))
unfolding publish_all
publish_all-headers accepts stream_id [] l = refl
publish_all-headers accepts stream_id (f ∷ fs) l =
    publish_all-headers accepts stream_id fs (publish_one accepts stream_id f l)
    ∙ ap (latest_all fs) (publish_one-headers accepts stream_id f l)

-- A frame that is there has the property.
abbrev pub Holds : (SharedMediaFrame → Type 0) → Option SharedMediaFrame → Type 0
Holds P none = Unit
Holds P (some f) = P f

newer-Holds :
    (P : SharedMediaFrame → Type 0) (a b : Option SharedMediaFrame)
    → Holds P a
    → Holds P b
    → Holds P (newer a b)
newer-Holds P none b h h' = h'
newer-Holds P (some f) b h h' = h

latest-Holds :
    (P : SharedMediaFrame → Type 0) (pick : Frame → Option SharedMediaFrame) (fs : List Frame)
    (earlier : Option SharedMediaFrame)
    → All (λ f. Holds P (pick f)) fs
    → Holds P earlier
    → Holds P (latest pick fs earlier)
latest-Holds P pick [] earlier all h = h
latest-Holds P pick (f ∷ fs) earlier (here, all) h =
    latest-Holds P pick fs (newer (pick f) earlier) all (newer-Holds P (pick f) earlier here h)

everywhere : (Q : Frame → Type 0) → ((f : Frame) → Q f) → (fs : List Frame) → All Q fs
everywhere Q q [] = tt
everywhere Q q (f ∷ fs) = (q f, everywhere Q q fs)

abbrev IsVideoHeader : SharedMediaFrame → Type 0
IsVideoHeader f = classify_is_video_sequence_header f ≡ true

abbrev IsAudioHeader : SharedMediaFrame → Type 0
IsAudioHeader f =
    (classify_is_video_sequence_header f ≡ false) × (classify_is_audio_sequence_header f ≡ true)

abbrev pub IsPlain : SharedMediaFrame → Type 0
IsPlain f =
    (classify_is_video_sequence_header f ≡ false) × (classify_is_audio_sequence_header f ≡ false)

video_header_of-Holds : (f : Frame) → Holds IsVideoHeader (video_header_of f)
video_header_of-Holds (video_frame f) = elim (Bool-cases (classify_is_video_sequence_header f)) [
  | inl e ↦ rw e e
  | inr e ↦ rw e tt
]
video_header_of-Holds (audio_frame f) = tt
video_header_of-Holds (metadata_frame f) = tt

-- The first byte of an AAC tag has its high bit set, which no tag of AVC has.
tag-Other :
    (payload : List ℕ)
    → has_audio_header (audio_info payload) ≡ true
    → has_video_header (video_info payload) ≡ false
tag-Other payload e =
    let codec : byte_at payload 0 / 2 ^ 4 ≡ 10 = ground arith in
    let high : (byte_at payload 0 / 2 ^ 7 % 2 == 0) ≡ false = ground arith in rw high (ground arith)

tags-empty :
    (payload : List ℕ)
    → (length payload == 0) ≡ true
    → (classify_video_tag payload ≡ none) × (classify_audio_tag payload ≡ none)
unfolding classify_video_tag classify_audio_tag
tags-empty payload e = rw e (refl, refl)

tags-some :
    (payload : List ℕ)
    → (length payload == 0) ≡ false
    → (classify_video_tag payload ≡ some (video_info payload))
      × (classify_audio_tag payload ≡ some (audio_info payload))
unfolding classify_video_tag classify_audio_tag
tags-some payload e = rw e (refl, refl)

audio_header-Other :
    (f : SharedMediaFrame)
    → classify_is_audio_sequence_header f ≡ true
    → classify_is_video_sequence_header f ≡ false
unfolding classify_is_video_sequence_header classify_is_audio_sequence_header
audio_header-Other f e = elim (Bool-cases (length f.payload == 0)) [
  | inl empty ↦ rw ((tags-empty f.payload empty).0, classify_is_video_sequence_header) refl
  | inr there ↦
      let (v, a) = tags-some f.payload there in
      let audible : has_audio_header (audio_info f.payload) ≡ true =
        (rw (a, classify_is_audio_sequence_header) at e) in
      rw (v, classify_is_video_sequence_header) (tag-Other f.payload audible)
]

audio_header_of-Holds : (f : Frame) → Holds IsAudioHeader (audio_header_of f)
audio_header_of-Holds (audio_frame f) = elim (Bool-cases (classify_is_audio_sequence_header f)) [
  | inl e ↦ rw e (audio_header-Other f e, e)
  | inr e ↦ rw e tt
]
audio_header_of-Holds (video_frame f) = tt
audio_header_of-Holds (metadata_frame f) = tt

-- Each header goes out by the call for its kind.
sent-headers :
    (sink : ℕ) (m v a : Option SharedMediaFrame)
    → Holds IsPlain m
    → Holds IsVideoHeader v
    → Holds IsAudioHeader a
    → sent_all header_kind sink (optional m ++ (optional v ++ optional a))
      ≡ header_calls metadata sink m ++ (header_calls video sink v ++ header_calls audio sink a)
sent-headers sink none none none hm hv ha = refl
sent-headers sink none none (some a) hm hv (x, y) = rw (x, y) refl
sent-headers sink none (some v) none hm hv ha = rw hv refl
sent-headers sink none (some v) (some a) hm hv (x, y) = rw (hv, x, y) refl
sent-headers sink (some m) none none (p, q) hv ha = rw (p, q) refl
sent-headers sink (some m) none (some a) (p, q) hv (x, y) = rw (p, q, x, y) refl
sent-headers sink (some m) (some v) none (p, q) hv ha = rw (p, q, hv) refl
sent-headers sink (some m) (some v) (some a) (p, q) hv (x, y) = rw (p, q, hv, x, y) refl

-- By the type of the message: 9 is video.
abbrev pub kind_by_type : SharedMediaFrame → MediaKind
kind_by_type f = if f.message_type_id == 9 then video else audio

-- A viewer subscribes to a stream on which, since it was opened, a publisher sent any video, audio and
-- metadata frames, where no metadata has the form of a sequence header. The calls that follow are:
-- the latest metadata; the latest video sequence header; the latest audio sequence header, each by
-- the call for its kind and if there was one; then either no frame or exactly the frames since the
-- latest keyframe, that keyframe first and none missing; and the report of the subscription. This
-- holds whatever the sinks answer.
pub subscribe-publish_all :
    (accepts : Sinks) (stream_id subscriber_id sink : ℕ) (client_ip : List ℕ) (fs : List Frame)
    (opened : LiveFanout)
    → lookup ◌==◌ stream_id opened.streams ≡ none
    → All (λ f. Holds IsPlain (metadata_of f)) fs
    → let l = publish_all accepts stream_id fs opened in
      (frames : List SharedMediaFrame) × Whole frames (since_keyframe (history_of fs []))
      × ((subscribe accepts stream_id subscriber_id sink client_ip l).outside.calls
          ≡ l.outside.calls
            ++ ((header_calls metadata sink (latest metadata_of fs none)
                  ++ (header_calls video sink (latest video_header_of fs none)
                      ++ header_calls audio sink (latest audio_header_of fs none)))
                ++ (sent_all kind_by_type sink frames ++ subscribed stream_id ∷ [])))
unfolding after state_for
subscribe-publish_all accepts stream_id subscriber_id sink client_ip fs opened absent plain =
    let l = publish_all accepts stream_id fs opened in
    let state = state_for stream_id l in
    let frames = state.gop_cache.frames in
    let fresh : (state_for stream_id opened).gop_cache ≡ empty_cache opened.gop_limits =
      rw (absent, state_for) refl in
    let unknown : headers (state_for stream_id opened) ≡ (none, none, none) =
      rw (absent, state_for) refl in
    let cached = publish_all-after opened.gop_limits accepts stream_id fs opened [] fresh in
    let known : headers state ≡ latest_all fs (none, none, none) =
      publish_all-headers accepts stream_id fs opened ∙ ap (latest_all fs) unknown in
    let last = sent_all kind_by_type sink frames ++ subscribed stream_id ∷ [] in
    let typed =
      sent-headers sink (latest metadata_of fs none) (latest video_header_of fs none)
        (latest audio_header_of fs none) (latest-Holds IsPlain metadata_of fs none plain tt)
        (latest-Holds IsVideoHeader video_header_of fs none
          (everywhere (λ f. Holds IsVideoHeader (video_header_of f)) video_header_of-Holds fs) tt)
        (latest-Holds IsAudioHeader audio_header_of fs none
          (everywhere (λ f. Holds IsAudioHeader (audio_header_of f)) audio_header_of-Holds fs)
          tt) in
    (
      frames,
      subst (λ (c : GopCache). Whole c.frames (since_keyframe (history_of fs []))) (sym cached)
          (after-Whole (history_of fs []) opened.gop_limits),
      subscribe-calls accepts stream_id subscriber_id sink client_ip l
          ∙ ap
              (λ (h : Headers).
                l.outside.calls
                ++ (sent_all header_kind sink (optional h.0 ++ (optional h.1 ++ optional h.2))
                    ++ last))
              known
          ∙ ap (λ cs. l.outside.calls ++ (cs ++ last)) typed,
    )
