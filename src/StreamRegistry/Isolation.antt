-- ===== src/StreamRegistry/Isolation.antt =====
-- One connection's entries against the operations of the others, and the metrics (stream_registry.hpp).
use rtmp_core.Base.{
  same_key, ℕ, ◌≡◌, ◌≢◌, refl, ap, inl, inr, false, ◌==◌, some, List, [], ◌∷◌, same_key-true, All,
  arith, Bool-cases, Option-cases, ◌∙◌,
}
use rtmp_core.StreamRegistry.{
  Streams, StreamRegistration, StreamRegistry, find_stream, assign, erase, erase_all,
  register_publisher, unregister_publisher, unregister_all_for_connection,
}

pub data Operation : Type 0 where
  publish : StreamRegistration → Operation
  unpublish : List ℕ → ℕ → Operation
  close : ℕ → Operation

-- The connection that an operation is for.
abbrev pub connection_of : Operation → ℕ
connection_of (publish reg) = reg.connection_id
connection_of (unpublish key connection_id) = connection_id
connection_of (close connection_id) = connection_id

unfoldable pub step : Operation → StreamRegistry → StreamRegistry
step (publish reg) r = (register_publisher reg r).1
step (unpublish key connection_id) r = unregister_publisher key connection_id r
step (close connection_id) r = unregister_all_for_connection connection_id r

unfoldable pub run_all : List Operation → StreamRegistry → StreamRegistry
run_all [] r = r
run_all (op ∷ ops) r = run_all ops (step op r)

find-assign_other :
    (key : List ℕ) (reg : StreamRegistration) (s : Streams)
    → same_key reg.stream_key key ≡ false
    → find_stream key (assign reg.stream_key reg s) ≡ find_stream key s
unfolding find_stream assign
find-assign_other key reg [] ne = rw ne refl
find-assign_other key reg ((k, old) ∷ s) ne = elim (Bool-cases (same_key k reg.stream_key)) [
  | inl same ↦
      let e : same_key k key ≡ false =
        ap (λ a. same_key a key) (same_key-true k reg.stream_key same) ∙ ne in
      rw (same, e) refl
  | inr other ↦ rw (other, find-assign_other key reg s ne) refl
]

find-erase_other :
    (key other_key : List ℕ) (s : Streams)
    → same_key other_key key ≡ false
    → find_stream key (erase other_key s) ≡ find_stream key s
unfolding find_stream erase
find-erase_other key other_key [] ne = refl
find-erase_other key other_key ((k, old) ∷ s) ne = elim (Bool-cases (same_key k other_key)) [
  | inl same ↦
      let e : same_key k key ≡ false =
        ap (λ a. same_key a key) (same_key-true k other_key same) ∙ ne in
      rw (same, e) refl
  | inr other ↦ rw (other, find-erase_other key other_key s ne) refl
]

find-erase_all :
    (key : List ℕ) (reg : StreamRegistration) (connection_id : ℕ) (s : Streams)
    → find_stream key s ≡ some reg
    → connection_id ≢ reg.connection_id
    → find_stream key (erase_all connection_id s).0 ≡ some reg
unfolding find_stream erase_all
find-erase_all key reg c [] e ne = cc
find-erase_all key reg c ((k, old) ∷ s) e ne = ground (arith, find-erase_all key reg c s)

publish_keeps :
    (key : List ℕ) (mine reg : StreamRegistration) (r : StreamRegistry)
    → find_stream key r.streams ≡ some mine
    → reg.connection_id ≢ mine.connection_id
    → find_stream key (register_publisher reg r).1.streams ≡ some mine
unfolding register_publisher
publish_keeps key mine reg r e ne = elim (Bool-cases (same_key reg.stream_key key)) [
  | inl same ↦
      let found : find_stream reg.stream_key r.streams ≡ some mine =
        ap (λ k. find_stream k r.streams) (same_key-true reg.stream_key key same) ∙ e in
      let refused : (mine.connection_id == reg.connection_id) ≡ false = ground arith in
      rw (found, refused, register_publisher) e
  | inr other ↦
      let kept = find-assign_other key reg r.streams other ∙ e in
      elim (Option-cases (find_stream reg.stream_key r.streams)) [
        | inl free ↦ rw (free, register_publisher) kept
        | inr (old, taken) ↦ elim (Bool-cases (old.connection_id == reg.connection_id)) [
          | inl again ↦ rw (taken, again, register_publisher) kept
          | inr refused ↦ rw (taken, refused, register_publisher) e
        ]
      ]
]

unpublish_keeps :
    (key other_key : List ℕ) (c : ℕ) (mine : StreamRegistration) (r : StreamRegistry)
    → find_stream key r.streams ≡ some mine
    → c ≢ mine.connection_id
    → find_stream key (unregister_publisher other_key c r).streams ≡ some mine
unfolding unregister_publisher
unpublish_keeps key other_key c mine r e ne = elim (Bool-cases (same_key other_key key)) [
  | inl same ↦
      let found : find_stream other_key r.streams ≡ some mine =
        ap (λ k. find_stream k r.streams) (same_key-true other_key key same) ∙ e in
      let refused : (mine.connection_id == c) ≡ false = ground arith in
      rw (found, refused, unregister_publisher) e
  | inr other ↦
      let kept = find-erase_other key other_key r.streams other ∙ e in
      elim (Option-cases (find_stream other_key r.streams)) [
        | inl free ↦ rw (free, unregister_publisher) e
        | inr (old, taken) ↦ elim (Bool-cases (old.connection_id == c)) [
          | inl again ↦ rw (taken, again, unregister_publisher) kept
          | inr refused ↦ rw (taken, refused, unregister_publisher) e
        ]
      ]
]

step_keeps :
    (key : List ℕ) (mine : StreamRegistration) (op : Operation) (r : StreamRegistry)
    → find_stream key r.streams ≡ some mine
    → connection_of op ≢ mine.connection_id
    → find_stream key (step op r).streams ≡ some mine
unfolding step unregister_all_for_connection
step_keeps key mine (publish reg) r e ne = publish_keeps key mine reg r e ne
step_keeps key mine (unpublish k c) r e ne = unpublish_keeps key k c mine r e ne
step_keeps key mine (close c) r e ne = find-erase_all key mine c r.streams e ne

-- Operations for other connections, in any number and order, leave the publisher of a stream key as
-- it is: nobody takes the key over, and nobody else's unpublishing or closing removes it.
pub find_stream-run_all :
    (key : List ℕ) (mine : StreamRegistration) (ops : List Operation) (r : StreamRegistry)
    → find_stream key r.streams ≡ some mine
    → All (λ op. connection_of op ≢ mine.connection_id) ops
    → find_stream key (run_all ops r).streams ≡ some mine
unfolding run_all
find_stream-run_all key mine [] r e all = e
find_stream-run_all key mine (op ∷ ops) r e (ne, all) =
    find_stream-run_all key mine ops (step op r) (step_keeps key mine op r e ne) all
