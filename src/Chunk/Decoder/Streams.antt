-- ===== src/Chunk/Decoder/Streams.antt =====
-- The table `streams_` of chunk_decoder.hpp, with the state of one chunk stream. The order of an
-- unordered_map's entries is never read; here a new entry goes to the end.
pub mod Laws
use rtmp_core.Base.{ℕ, Bool, false, Option, none, some, List, [], ◌∷◌, ◌==◌, if◌then◌else◌}

pub record StreamState : Type 0 where
  pub has_header : Bool
  pub timestamp : ℕ
  pub timestamp_delta : ℕ
  pub message_length : ℕ
  pub message_type_id : ℕ
  pub message_stream_id : ℕ
  pub extended_timestamp : Bool
  pub partial_payload : List ℕ
  pub bytes_remaining : ℕ
  pub message_timestamp : ℕ

abbrev pub new_stream : StreamState
new_stream = record {
  has_header = false;
  timestamp = 0;
  timestamp_delta = 0;
  message_length = 0;
  message_type_id = 0;
  message_stream_id = 0;
  extended_timestamp = false;
  partial_payload = [];
  bytes_remaining = 0;
  message_timestamp = 0;
}

abbrev pub StreamTable : Type 0
StreamTable = List (ℕ × StreamState)

unfoldable pub find : ℕ → StreamTable → Option StreamState
find k [] = none
find k ((j, st) ∷ rest) = if j == k then some st else find k rest

unfoldable pub put : ℕ → StreamState → StreamTable → StreamTable
put k st [] = (k, st) ∷ []
put k st ((j, old) ∷ rest) = if j == k then (k, st) ∷ rest else (j, old) ∷ put k st rest
