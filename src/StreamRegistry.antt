-- ===== src/StreamRegistry.antt =====
-- include/rtmp_server/protocol/commands/stream_registry.hpp: who publishes which stream key. A string
-- is its bytes. The metrics are attached, and stay so; the gauge active_publishers is kept as what
-- was added to it and what was taken off, which is also what publisher_disconnects counts. Every
-- operation holds the mutex for its whole length, so the operations of several threads are a
-- sequence.
pub mod Isolation
pub mod Gauge
pub mod Tests
use rtmp_core.Base.{
  same_key, ℕ, ◌+◌, Bool, true, false, not, ◌&&◌, ◌==◌, if◌then◌else◌, Option, none, some, List, [],
  ◌∷◌, ◌++◌, length,
}

pub record StreamRegistration : Type 0 where
  pub app : List ℕ
  pub stream_key : List ℕ
  pub connection_id : ℕ
  pub stream_id : ℕ
  pub start_time : ℕ

abbrev pub Streams : Type 0
Streams = List (List ℕ × StreamRegistration)

pub record StreamRegistry : Type 0 where
  pub streams : Streams
  pub added : ℕ
  pub removed : ℕ

abbrev pub no_streams : StreamRegistry
no_streams = record { streams = []; added = 0; removed = 0 }

unfoldable pub find_stream : List ℕ → Streams → Option StreamRegistration
find_stream key [] = none
find_stream key ((k, reg) ∷ rest) = if same_key k key then some reg else find_stream key rest

unfoldable pub assign : List ℕ → StreamRegistration → Streams → Streams
assign key reg [] = (key, reg) ∷ []
assign key reg ((k, old) ∷ rest) =
    if same_key k key then (k, reg) ∷ rest else (k, old) ∷ assign key reg rest

unfoldable pub erase : List ℕ → Streams → Streams
erase key [] = []
erase key ((k, reg) ∷ rest) = if same_key k key then rest else (k, reg) ∷ erase key rest

-- The entries of the other connections, and how many of this one there were.
unfoldable pub erase_all : ℕ → Streams → Streams × ℕ
erase_all connection_id [] = ([], 0)
erase_all connection_id ((k, reg) ∷ rest) =
    let (kept, n) = erase_all connection_id rest in
    if reg.connection_id == connection_id then (kept, n + 1) else ((k, reg) ∷ kept, n)

abbrev pub accept : Bool → StreamRegistration → StreamRegistry → StreamRegistry
accept is_new reg r = record r {
  streams = assign reg.stream_key reg r.streams;
  added = if is_new then r.added + 1 else r.added;
}

unfoldable pub register_publisher : StreamRegistration → StreamRegistry → Bool × StreamRegistry
register_publisher reg r = elim (find_stream reg.stream_key r.streams) [
  | none ↦ (true, accept true reg r)
  | some old ↦
      if not (old.connection_id == reg.connection_id)
      then (false, r)
      else (true, accept false reg r)
]

unfoldable pub unregister_publisher : List ℕ → ℕ → StreamRegistry → StreamRegistry
unregister_publisher key connection_id r = elim (find_stream key r.streams) [
  | none ↦ r
  | some old ↦
      if old.connection_id == connection_id
      then record r { streams = erase key r.streams; removed = r.removed + 1 }
      else r
]

unfoldable pub unregister_all_for_connection : ℕ → StreamRegistry → StreamRegistry
unregister_all_for_connection connection_id r =
    let (kept, n) = erase_all connection_id r.streams in
    record r { streams = kept; removed = r.removed + n }

abbrev pub is_published : List ℕ → StreamRegistry → Bool
is_published key r = elim (find_stream key r.streams) [ none ↦ false | some reg ↦ true ]
