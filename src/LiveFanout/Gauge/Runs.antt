-- ===== src/LiveFanout/Gauge/Runs.antt =====
-- The gauge active_viewers over any operations (src/protocol/commands/live_fanout.cpp).
use rtmp_core.Base.{ℕ, refl, Bool, List, [], ◌∷◌}
use rtmp_core.Playback.GopCache.{SharedMediaFrame}
use rtmp_core.LiveFanout.State.{Sinks, LiveFanout}
use rtmp_core.LiveFanout.Observe.{sample_gauges}
use rtmp_core.LiveFanout.{
  state_for, cache_video, cache_audio, cache_metadata, on_video, on_audio, on_metadata, subscribe,
  unsubscribe, publisher_stopped,
}
use rtmp_core.LiveFanout.Gauge.Steps.{
  Exact, Unused, publish-Exact, cache_video-subscribers, cache_audio-subscribers, subscribe-Exact,
  unsubscribe-Exact, publisher_stopped-Exact, sample_gauges-Exact,
}

pub data Operation : Type 0 where
  video_frame audio_frame metadata_frame : ℕ → SharedMediaFrame → Bool → Operation
  join : ℕ → ℕ → ℕ → List ℕ → Operation
  part : ℕ → ℕ → Operation
  stop : ℕ → Bool → Operation
  sample : Operation

unfoldable pub step : Sinks → Operation → LiveFanout → LiveFanout
step accepts (video_frame stream_id frame is_replayed) l =
    on_video accepts stream_id frame is_replayed l
step accepts (audio_frame stream_id frame is_replayed) l =
    on_audio accepts stream_id frame is_replayed l
step accepts (metadata_frame stream_id frame is_replayed) l =
    on_metadata accepts stream_id frame is_replayed l
step accepts (join stream_id subscriber_id sink client_ip) l =
    subscribe accepts stream_id subscriber_id sink client_ip l
step accepts (part stream_id subscriber_id) l = unsubscribe stream_id subscriber_id l
step accepts (stop stream_id is_replayed) l = publisher_stopped stream_id is_replayed l
step accepts sample l = sample_gauges l

abbrev pub Allowed : Operation → LiveFanout → Type 0
Allowed (video_frame stream_id frame is_replayed) l = Unit {0}
Allowed (audio_frame stream_id frame is_replayed) l = Unit {0}
Allowed (metadata_frame stream_id frame is_replayed) l = Unit {0}
Allowed (join stream_id subscriber_id sink client_ip) l = Unused stream_id subscriber_id l
Allowed (part stream_id subscriber_id) l = Unit {0}
Allowed (stop stream_id is_replayed) l = Unit {0}
Allowed sample l = Unit {0}

step-Exact :
    (accepts : Sinks) (op : Operation) (l : LiveFanout)
    → Allowed op l
    → Exact l
    → Exact (step accepts op l)
unfolding step
step-Exact accepts (video_frame stream_id frame is_replayed) l a h =
    publish-Exact accepts _ _ is_replayed (cache_video frame (state_for stream_id l)) l
      (cache_video-subscribers frame (state_for stream_id l)) h
step-Exact accepts (audio_frame stream_id frame is_replayed) l a h =
    publish-Exact accepts _ _ is_replayed (cache_audio frame (state_for stream_id l)) l
      (cache_audio-subscribers frame (state_for stream_id l)) h
step-Exact accepts (metadata_frame stream_id frame is_replayed) l a h =
    publish-Exact accepts _ _ is_replayed (cache_metadata frame (state_for stream_id l)) l refl h
step-Exact accepts (join stream_id subscriber_id sink client_ip) l a h =
    subscribe-Exact accepts stream_id subscriber_id sink client_ip l a h
step-Exact accepts (part stream_id subscriber_id) l a h =
    unsubscribe-Exact stream_id subscriber_id l h
step-Exact accepts (stop stream_id is_replayed) l a h =
    publisher_stopped-Exact stream_id is_replayed l h
step-Exact accepts sample l a h = sample_gauges-Exact l h

unfoldable pub run_all : Sinks → List Operation → LiveFanout → LiveFanout
run_all accepts [] l = l
run_all accepts (op ∷ ops) l = run_all accepts ops (step accepts op l)

-- Every subscription comes with an id that its stream does not use at the time.
abbrev pub AllAllowed : Sinks → List Operation → LiveFanout → Type 0
AllAllowed accepts [] l = Unit {0}
AllAllowed accepts (op ∷ ops) l = Allowed op l × AllAllowed accepts ops (step accepts op l)

-- From a state in which the gauge of active viewers is right, and through any operations in which
-- every subscription comes with an id that its stream does not use at the time: the gauge is, as a
-- number of 64 bits, the number of the subscribers of all streams. This holds whatever the sinks
-- answer, with viewers evicted by their queue and by their transport, and with publishers that stop.
pub run_all-Exact :
    (accepts : Sinks) (ops : List Operation) (l : LiveFanout)
    → AllAllowed accepts ops l
    → Exact l
    → Exact (run_all accepts ops l)
unfolding run_all
run_all-Exact accepts [] l allowed h = h
run_all-Exact accepts (op ∷ ops) l (a, allowed) h =
    run_all-Exact accepts ops (step accepts op l) allowed (step-Exact accepts op l a h)
