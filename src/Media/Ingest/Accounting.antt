-- ===== src/Media/Ingest/Accounting.antt =====
-- What is rejected is counted, and changes no configuration that a stream keeps
-- (src/protocol/media/media_ingest.cpp).
use rtmp_core.Base.{
  ℕ, suc, ◌+◌, ◌%◌, ◌^◌, ◌<◌, ◌≡◌, refl, ap, inl, inr, Bool, true, false, ◌&&◌, List, [], ◌∷◌,
  length, arith, ◌==◌, same_key, same_key-true, same_key_refl, if◌then◌else◌, Bool-cases,
}
use rtmp_core.Base.Table.{lookup, set, lookup-set, lookup-set_other}
use rtmp_core.Core.Result.{Result, err, ok}
use rtmp_core.Chunk.{RtmpMessage}
use rtmp_core.Media.Ingest.Tags.{video_info}
use rtmp_core.Media.Ingest.{
  is_key_type, StreamMediaState, at_stream, state_for, on_audio_message, on_video_message,
  on_metadata_message, MediaIngest, Outcome, on_audio, on_video, on_enhanced, on_classic,
  on_metadata, count_video,
}

abbrev pub is_error : Result (Unit {0}) → Bool
is_error (err error) = true
is_error (ok v) = false

abbrev pub rejected : StreamMediaState → ℕ
rejected s = s.stats.rejected_message_count

-- An outcome for a stream that was in state `s`: an error is counted once, success is not counted,
-- and after an error every configuration is what it was.
pub record Accounts (s : StreamMediaState) (o : Outcome) : Type 0 where
  pub counted : rejected o.1 ≡ (if is_error o.0 then (rejected s + 1) % 2 ^ 64 else rejected s)
  pub avc_kept : is_error o.0 ≡ true → o.1.avc_sequence_header ≡ s.avc_sequence_header
  pub aac_kept : is_error o.0 ≡ true → o.1.aac_sequence_header ≡ s.aac_sequence_header
  pub hevc_kept : is_error o.0 ≡ true → o.1.hevc_sequence_header ≡ s.hevc_sequence_header

pub data Message : Type 0 where
  audio video metadata : RtmpMessage → Message

abbrev pub handle : Message → StreamMediaState → Outcome
handle (audio m) s = on_audio m s
handle (video m) s = on_video m s
handle (metadata m) s = on_metadata m s

on_audio-Accounts : (m : RtmpMessage) (s : StreamMediaState) → Accounts s (on_audio m s)
unfolding on_audio
on_audio-Accounts m s = ground arith

on_enhanced-Accounts : (m : RtmpMessage) (s : StreamMediaState) → Accounts s (on_enhanced m s)
unfolding on_enhanced
on_enhanced-Accounts m s = ground arith

on_classic-Accounts : (m : RtmpMessage) (s : StreamMediaState) → Accounts s (on_classic m s)
unfolding on_classic
on_classic-Accounts m s = ground arith

on_metadata-Accounts : (m : RtmpMessage) (s : StreamMediaState) → Accounts s (on_metadata m s)
unfolding on_metadata
on_metadata-Accounts m s = ground arith

-- Counting a video message changes neither of these.
count_video-Accounts :
    (m : RtmpMessage) (s : StreamMediaState) (o : Outcome)
    → Accounts (count_video m s) o
    → Accounts s o
count_video-Accounts m s o a = elim (Bool-cases (is_key_type (video_info m.payload).frame_type)) [
  | inl key ↦ ground arith
  | inr other ↦ ground arith
]

on_video-Accounts : (m : RtmpMessage) (s : StreamMediaState) → Accounts s (on_video m s)
unfolding on_video
on_video-Accounts m s = elim (Bool-cases (length m.payload == 0)) [
  | inl e ↦ rw e (ground arith)
  | inr e ↦ elim (Bool-cases (video_info m.payload).enhanced) [
    | inl x ↦ rw (e, x) (count_video-Accounts m s _ (on_enhanced-Accounts m (count_video m s)))
    | inr x ↦ rw (e, x) (count_video-Accounts m s _ (on_classic-Accounts m (count_video m s)))
  ]
]

-- Every call with an audio, a video or a metadata message, on every path through it: an error is
-- counted once as a rejection and leaves all three decoder configurations of the stream as they
-- were, and a success is not counted as one.
pub handle-Accounts : (m : Message) (s : StreamMediaState) → Accounts s (handle m s)
handle-Accounts (audio m) s = on_audio-Accounts m s
handle-Accounts (video m) s = on_video-Accounts m s
handle-Accounts (metadata m) s = on_metadata-Accounts m s

-- Messages for any streams, with what each call returned.
abbrev pub ingest : List ℕ → Message → MediaIngest → Result (Unit {0}) × MediaIngest
ingest key (audio m) streams = on_audio_message key m streams
ingest key (video m) streams = on_video_message key m streams
ingest key (metadata m) streams = on_metadata_message key m streams

unfoldable pub ingest_all :
    List (List ℕ × Message) → MediaIngest → List (List ℕ × Result (Unit {0})) × MediaIngest
ingest_all [] streams = ([], streams)
ingest_all ((key, m) ∷ rest) streams =
    let (r, streams') = ingest key m streams in
    let (rs, last) = ingest_all rest streams' in ((key, r) ∷ rs, last)

-- The errors that calls for one stream returned.
abbrev pub errors : List ℕ → List (List ℕ × Result (Unit {0})) → ℕ
errors key [] = 0
errors key ((k, r) ∷ rs) =
    if same_key k key && is_error r then suc (errors key rs) else errors key rs

ingest-at_stream :
    (key : List ℕ) (m : Message) (streams : MediaIngest)
    → ingest key m streams ≡ at_stream (handle m) key streams
ingest-at_stream key (audio m) streams = refl
ingest-at_stream key (video m) streams = refl
ingest-at_stream key (metadata m) streams = refl

state_for-set :
    (key other : List ℕ) (s : StreamMediaState) (streams : MediaIngest)
    → state_for other (set same_key key s streams)
      ≡ (if same_key key other then s else state_for other streams)
state_for-set key other s streams = elim (Bool-cases (same_key key other)) [
  | inl same ↦
      ground (arith, same_key-true key other, lookup-set same_key same_key_refl key s streams)
  | inr differs ↦ ground (arith, lookup-set_other same_key same_key-true other key s streams)
]

at_stream-rejected :
    (key k : List ℕ) (m : Message) (streams : MediaIngest)
    → let (r, after) = at_stream (handle m) k streams in
      rejected (state_for key after) ≡ (
        if same_key k key && is_error r
        then (rejected (state_for key streams) + 1) % 2 ^ 64
        else rejected (state_for key streams))
at_stream-rejected key k m streams =
    let s = state_for k streams in
    let one = (handle-Accounts m s).counted in
    let e = ap rejected (state_for-set k key (handle m s).1 streams) in
    elim (Bool-cases (same_key k key)) [
      | inl same ↦
          let here : rejected (state_for k streams) ≡ rejected (state_for key streams) =
            ap (λ j. rejected (state_for j streams)) (same_key-true k key same) in
          ground (arith, e, one, here)
      | inr differs ↦ ground (arith, e)
    ]

ingest_all-errors :
    (key : List ℕ) (ms : List (List ℕ × Message)) (streams : MediaIngest)
    → rejected (state_for key streams) < 2 ^ 64
    → let (rs, last) = ingest_all ms streams in
      rejected (state_for key last) ≡ (rejected (state_for key streams) + errors key rs) % 2 ^ 64
unfolding ingest_all
ingest_all-errors key [] streams small = omega arith
ingest_all-errors key ((k, m) ∷ ms) streams small =
    let (r, after) = ingest k m streams in
    let step : rejected (state_for key after) ≡ (
        if same_key k key && is_error r
        then (rejected (state_for key streams) + 1) % 2 ^ 64
        else rejected (state_for key streams)) =
      rw (ingest-at_stream k m streams) (at_stream-rejected key k m streams) in
    let bound : rejected (state_for key after) < 2 ^ 64 = ground (arith, step) in
    let later = ingest_all-errors key ms after bound in
    elim (Bool-cases (same_key k key && is_error r)) [
      | inl mine ↦ ground (arith, step, later)
      | inr other ↦ ground (arith, step, later)
    ]

-- After any messages for any streams, the rejections that a stream has counted are, as a number of 64
-- bits, the errors that the calls for that stream returned: none is missed, and none is put down to
-- another stream.
pub ingest_all-counts :
    (key : List ℕ) (ms : List (List ℕ × Message))
    → let (rs, last) = ingest_all ms [] in rejected (state_for key last) ≡ errors key rs % 2 ^ 64
unfolding lookup
ingest_all-counts key ms = omega (arith, ingest_all-errors key ms [] (omega arith))
