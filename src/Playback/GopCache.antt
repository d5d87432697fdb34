-- ===== src/Playback/GopCache.antt =====
-- include/rtmp_server/protocol/commands/gop_cache.hpp, with the frame of shared_media_frame.hpp as the
-- cache sees it: `payload` is what the shared buffer holds. A limit of 0 is no limit; max_duration is
-- a count of milliseconds, not negative.
pub mod History
pub mod Bounds
use rtmp_core.Base.{
  ℕ, ◌+◌, ◌-◌, ◌%◌, ◌^◌, Bool, true, false, not, ◌&&◌, ◌||◌, ltb, leb, ◌==◌, if◌then◌else◌, Option,
  none, some, List, [], ◌∷◌, ◌++◌, length,
}
use rtmp_core.Chunk.{RtmpMessage}

pub record SharedMediaFrame : Type 0 where
  pub payload : List ℕ
  pub message_type_id : ℕ
  pub timestamp : ℕ

abbrev pub from_message : RtmpMessage → SharedMediaFrame
from_message message = record {
  payload = message.payload;
  message_type_id = message.message_type_id;
  timestamp = message.timestamp;
}

abbrev pub to_message : ℕ → ℕ → SharedMediaFrame → RtmpMessage
to_message chunk_stream_id message_stream_id frame = record {
  chunk_stream_id = chunk_stream_id;
  timestamp = frame.timestamp;
  message_type_id = frame.message_type_id;
  message_stream_id = message_stream_id;
  payload = frame.payload;
}

pub record GopLimits : Type 0 where
  pub max_bytes : ℕ
  pub max_packets : ℕ
  pub max_duration : ℕ

pub record GopCache : Type 0 where
  pub limits : GopLimits
  pub frames : List SharedMediaFrame
  pub total_bytes : ℕ
  pub start_timestamp : Option ℕ

abbrev pub empty_cache : GopLimits → GopCache
empty_cache limits = record {
  limits = limits;
  frames = [];
  total_bytes = 0;
  start_timestamp = none;
}

abbrev pub clear : GopCache → GopCache
clear c = record c { frames = []; total_bytes = 0; start_timestamp = none }

abbrev pub or_else : Option ℕ → ℕ → Option ℕ
or_else none t = some t
or_else (some s) t = some s

abbrev pub push_internal : SharedMediaFrame → GopCache → GopCache
push_internal frame c = record c {
  frames = c.frames ++ frame ∷ [];
  total_bytes = (c.total_bytes + length frame.payload) % 2 ^ 64;
  start_timestamp = or_else c.start_timestamp frame.timestamp;
}

abbrev pub has_gop : GopCache → Bool
has_gop c = not (length c.frames == 0)

-- frames_.back().timestamp, of the list that is not empty.
abbrev pub latest_timestamp : List SharedMediaFrame → ℕ
latest_timestamp [] = 0
latest_timestamp (f ∷ []) = f.timestamp
latest_timestamp (f ∷ (g ∷ rest)) = latest_timestamp (g ∷ rest)

abbrev pub longer_than : ℕ → ℕ → Option ℕ → Bool
longer_than max_duration latest none = false
longer_than max_duration latest (some start) = leb start latest && ltb max_duration (latest - start)

unfoldable pub over_limits : GopCache → Bool
over_limits c =
    (not (c.limits.max_bytes == 0) && ltb c.limits.max_bytes c.total_bytes)
    || (not (c.limits.max_packets == 0) && ltb c.limits.max_packets (length c.frames))
    || (not (c.limits.max_duration == 0)
        && has_gop c
        && longer_than c.limits.max_duration (latest_timestamp c.frames) c.start_timestamp)

abbrev pub enforce_limits : GopCache → GopCache
enforce_limits c = if over_limits c then clear c else c

abbrev pub begin_new_gop : SharedMediaFrame → GopCache → GopCache
begin_new_gop keyframe c = push_internal keyframe (clear c)

unfoldable pub push : SharedMediaFrame → GopCache → Bool × GopCache
push frame c = if has_gop c then (true, enforce_limits (push_internal frame c)) else (false, c)
