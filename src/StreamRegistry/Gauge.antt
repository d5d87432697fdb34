-- ===== src/StreamRegistry/Gauge.antt =====
-- The gauge active_publishers (stream_registry.hpp, publish_metric).
use rtmp_core.Base.{
  ℕ, ◌+◌, ◌≡◌, inl, inr, ◌==◌, none, some, List, [], ◌∷◌, length, arith, Bool-cases, Option-cases,
}
use rtmp_core.StreamRegistry.{
  Streams, StreamRegistration, StreamRegistry, no_streams, find_stream, assign, erase, erase_all,
  register_publisher, unregister_publisher, unregister_all_for_connection,
}
use rtmp_core.StreamRegistry.Isolation.{Operation, publish, unpublish, close, step, run_all}

-- What was added is what is there and what was taken off.
abbrev pub Exact : StreamRegistry → Type 0
Exact r = r.added ≡ length r.streams + r.removed

length-assign_new :
    (key : List ℕ) (reg : StreamRegistration) (s : Streams)
    → find_stream key s ≡ none
    → length (assign key reg s) ≡ length s + 1
unfolding find_stream assign
length-assign_new key reg [] e = omega arith
length-assign_new key reg ((k, old) ∷ s) e = ground (arith, length-assign_new key reg s)

length-assign_old :
    (key : List ℕ) (reg old : StreamRegistration) (s : Streams)
    → find_stream key s ≡ some old
    → length (assign key reg s) ≡ length s
unfolding find_stream assign
length-assign_old key reg old [] e = cc
length-assign_old key reg old ((k, other) ∷ s) e = ground (arith, length-assign_old key reg old s)

length-erase :
    (key : List ℕ) (old : StreamRegistration) (s : Streams)
    → find_stream key s ≡ some old
    → length (erase key s) + 1 ≡ length s
unfolding find_stream erase
length-erase key old [] e = cc
length-erase key old ((k, other) ∷ s) e = ground (arith, length-erase key old s)

length-erase_all : (c : ℕ) (s : Streams) → length (erase_all c s).0 + (erase_all c s).1 ≡ length s
unfolding erase_all
length-erase_all c [] = omega arith
length-erase_all c ((k, reg) ∷ s) = ground (arith, length-erase_all c s)

publish-Exact :
    (reg : StreamRegistration) (r : StreamRegistry) → Exact r → Exact (register_publisher reg r).1
unfolding register_publisher
publish-Exact reg r h = elim (Option-cases (find_stream reg.stream_key r.streams)) [
  | inl free ↦
      rw (free, register_publisher)
        (omega (arith, h, length-assign_new reg.stream_key reg r.streams free))
  | inr (old, taken) ↦ elim (Bool-cases (old.connection_id == reg.connection_id)) [
    | inl again ↦
        rw (taken, again, register_publisher)
          (omega (arith, h, length-assign_old reg.stream_key reg old r.streams taken))
    | inr refused ↦ rw (taken, refused, register_publisher) h
  ]
]

unpublish-Exact :
    (key : List ℕ) (c : ℕ) (r : StreamRegistry) → Exact r → Exact (unregister_publisher key c r)
unfolding unregister_publisher
unpublish-Exact key c r h = elim (Option-cases (find_stream key r.streams)) [
  | inl free ↦ rw (free, unregister_publisher) h
  | inr (old, taken) ↦ elim (Bool-cases (old.connection_id == c)) [
    | inl mine ↦
        rw (taken, mine, unregister_publisher)
          (omega (arith, h, length-erase key old r.streams taken))
    | inr refused ↦ rw (taken, refused, unregister_publisher) h
  ]
]

step-Exact : (op : Operation) (r : StreamRegistry) → Exact r → Exact (step op r)
unfolding step unregister_all_for_connection
step-Exact (publish reg) r h = publish-Exact reg r h
step-Exact (unpublish key c) r h = unpublish-Exact key c r h
step-Exact (close c) r h = omega (arith, h, length-erase_all c r.streams)

run_all-Exact : (ops : List Operation) (r : StreamRegistry) → Exact r → Exact (run_all ops r)
unfolding run_all
run_all-Exact [] r h = h
run_all-Exact (op ∷ ops) r h = run_all-Exact ops (step op r) (step-Exact op r h)

-- After any operations on an empty registry, what was added to the gauge of active publishers, less
-- what was taken off, is the number of the published keys.
pub run_all-no_streams-Exact : (ops : List Operation) → Exact (run_all ops no_streams)
run_all-no_streams-Exact ops = run_all-Exact ops no_streams (omega arith)
