-- ===== src/StreamRegistry/Tests.antt =====
-- The registry at concrete operations (stream_registry.hpp).
use rtmp_core.Base.{ℕ, ◌≡◌, refl, List, [], ◌∷◌, some, arith}
use rtmp_core.StreamRegistry.{StreamRegistration, StreamRegistry, no_streams, find_stream}
use rtmp_core.StreamRegistry.Isolation.{
  Operation, publish, unpublish, close, run_all, find_stream-run_all,
}
use rtmp_core.StreamRegistry.Gauge.{Exact, run_all-no_streams-Exact}

abbrev registration : ℕ → StreamRegistration
registration connection_id = record {
  app = 97 ∷ [];
  stream_key = 107 ∷ [];
  connection_id = connection_id;
  stream_id = 1;
  start_time = 0;
}

abbrev one_publisher : StreamRegistry
one_publisher = record { streams = (107 ∷ [], registration 4) ∷ []; added = 1; removed = 0 }

abbrev others : List Operation
others = publish (registration 5) ∷ unpublish (107 ∷ []) 6 ∷ close 5 ∷ []

find_stream-run_all_example :
    find_stream (107 ∷ []) (run_all others one_publisher).streams ≡ some (registration 4)
find_stream-run_all_example =
    find_stream-run_all (107 ∷ []) (registration 4) others one_publisher found
      ((λ e. omega arith), ((λ e. omega arith), ((λ e. omega arith), tt)))
  where
    found : find_stream (107 ∷ []) one_publisher.streams ≡ some (registration 4)
    found = unfold find_stream in refl

run_all-no_streams-Exact_example :
    Exact (run_all (publish (registration 4) ∷ publish (registration 5) ∷ close 4 ∷ []) no_streams)
run_all-no_streams-Exact_example =
    run_all-no_streams-Exact (publish (registration 4) ∷ publish (registration 5) ∷ close 4 ∷ [])
