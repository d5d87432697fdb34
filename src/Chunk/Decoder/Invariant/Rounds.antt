-- ===== src/Chunk/Decoder/Invariant/Rounds.antt =====
-- The invariant over a chunk, a round and a call of on_bytes_received
-- (src/protocol/chunk/chunk_decoder.cpp).
use rtmp_core.Base.{
  ℕ, ◌+◌, ◌^◌, ◌≤◌, ◌<◌, zero, suc, ◌∷◌, ◌≡◌, refl, sym, inl, inr, Bool, true, false, List, [],
  ◌++◌, arith, length, length-append, length-take, length-drop, take, drop, if◌then◌else◌,
  Bool-cases,
}
use rtmp_core.Chunk.Decoder.Streams.{StreamState, put}
use rtmp_core.Chunk.Decoder.Streams.Laws.{
  held, held-put_new, held-put_old, le-held, length-put_new, length-put_old, Every-find, Every-put,
  find-put_self,
}
use rtmp_core.Chunk.Decoder.Inspect.{
  Chunk, Verdict, need_header, need_body, reject, accept, inspect,
}
use rtmp_core.Chunk.Decoder.Inspect.Facts.{Known, Accepted, inspect-accept, inspect-body}
use rtmp_core.Chunk.Decoder.Invariant.{WithinMessage, Sound, Inv}
use rtmp_core.Chunk.Decoder.Invariant.Keeps.{fail-Inv, settle-Inv}
use rtmp_core.Chunk.Decoder.{
  Parser, DecodeResult, consumed, insufficient_data, failure, next_state, store, finish, commit,
  view, apply, decode_one, sub64, add64, after_round, run, feed, ChunkDecoder, on_bytes_received,
}
use mathlib.Core.Path.{subst}
use rtmp_core.Chunk.Decoder.Rounds.{Round, decode_one-Round}
use rtmp_core.Chunk.Decoder.Fragments.{
  run_empty, on_bytes_received-nil, on_bytes_received-open, on_bytes_received-failed,
}

-- The entry of an accepted chunk is replaced, or made within the limit.
put-Known :
    (p : Parser) (k : ℕ) (old st : StreamState)
    → Sound p
    → Known (view p) k old
    → (held (put k st p.streams) + length old.partial_payload
        ≡ held p.streams + length st.partial_payload)
      × (length old.partial_payload ≤ held p.streams)
      × (length (put k st p.streams) ≤ p.limits.max_chunk_streams)
      × WithinMessage p.max_message_size old
put-Known p k old st s (inl e) = (
  held-put_old k st old p.streams e,
  le-held k old p.streams e,
  omega (arith, s.few, length-put_old k st old p.streams e),
  Every-find (WithinMessage p.max_message_size) k old p.streams s.whole e,
)
put-Known p k old st s (inr (e, new, room)) =
    let none_held : length old.partial_payload ≡ 0 = rw new refl in
    let none_due : old.bytes_remaining ≡ 0 = rw new refl in
    (
      omega (arith, held-put_new k st p.streams e, none_held),
      omega (arith, none_held),
      omega (arith, room, length-put_new k st p.streams e),
      omega (arith, none_held, none_due),
    )

next_state_sizes :
    (p : Parser) (n : ℕ) (c : Chunk) (bytes : List ℕ)
    → Accepted (view p) n c
    → WithinMessage p.max_message_size c.state
    → length bytes ≡ c.slice
    → (length (next_state c bytes).partial_payload
        ≡ (if c.starting then 0 else length c.state.partial_payload) + c.slice)
      × WithinMessage p.max_message_size (next_state c bytes)
      × (c.slice ≤ p.max_message_size)
unfolding next_state
next_state_sizes p n c bytes a within size =
    ground (arith, a.small, a.sliced, length-append c.state.partial_payload bytes)

count_lem :
    (b : Bool) (h s old new h' lim mm : ℕ)
    → lim + 2 ^ 32 ≤ 2 ^ 64
    → mm < 2 ^ 32
    → h ≤ lim
    → s ≤ mm
    → old ≤ h
    → h' + old ≡ h + new
    → new ≡ (if b then 0 else old) + s
    → (add64 (if b then sub64 h old else h) s ≡ h')
      × (s ≡ 0 → add64 (if b then sub64 h old else h) s ≤ lim)
count_lem true h s old new h' lim mm a1 a2 a3 a4 a5 a6 a7 = (omega arith, λ z. omega arith)
count_lem false h s old new h' lim mm a1 a2 a3 a4 a5 a6 a7 = (omega arith, λ z. omega arith)

store-Sound :
    (c : Chunk) (bytes : List ℕ) (p : Parser)
    → Inv p
    → Accepted (view p) (length p.buffer) c
    → Known (view p) c.csid c.state
    → length bytes ≡ c.slice
    → Sound (store c bytes p)
      × (c.slice ≡ 0
          → (store c bytes p).buffered_payload_bytes ≤ p.limits.max_buffered_payload_bytes)
unfolding store
store-Sound c bytes p v a known size =
    let st = next_state c bytes in
    let (sum, part, few, old_fits) = put-Known p c.csid c.state st v.sound known in
    let (grown, fits, short) = next_state_sizes p (length p.buffer) c bytes a old_fits size in
    let (counted, bounded) =
      count_lem c.starting p.buffered_payload_bytes c.slice (length c.state.partial_payload)
        (length st.partial_payload) (held (put c.csid st p.streams))
        p.limits.max_buffered_payload_bytes p.max_message_size v.sound.wide v.sound.narrow v.bounded
        short (omega (arith, v.sound.counted)) (omega (arith, v.sound.counted)) grown in
    (
      record {
        wide = v.sound.wide;
        narrow = v.sound.narrow;
        counted = counted;
        few = few;
        whole = Every-put (WithinMessage p.max_message_size) c.csid st p.streams v.sound.whole fits;
        chunked = v.sound.chunked;
      },
      bounded,
    )

Sound-buffer :
    (c : Chunk) (bytes rest : List ℕ) (p : Parser)
    → Sound (store c bytes p)
    → Sound (store c bytes (record p { buffer = rest }))
unfolding store
Sound-buffer c bytes rest p s = record {
  wide = s.wide;
  narrow = s.narrow;
  counted = s.counted;
  few = s.few;
  whole = s.whole;
  chunked = s.chunked;
}

commit-Inv :
    (c : Chunk) (p : Parser)
    → Inv p
    → p.failed ≡ false
    → Accepted (view p) (length p.buffer) c
    → Known (view p) c.csid c.state
    → Inv (commit c p).1
unfolding commit finish store
commit-Inv c p v h a known =
    let body = drop c.header_len p.buffer in
    let bytes = take c.slice body in
    let size : length bytes ≡ c.slice =
      omega (arith, a.fits, length-take c.slice body, length-drop c.header_len p.buffer) in
    let (sound, bounded) = store-Sound c bytes p v a known size in
    settle-Inv c (next_state c bytes) (store c bytes (record p { buffer = drop c.slice body }))
      (Sound-buffer c bytes (drop c.slice body) p sound)
      (find-put_self c.csid (next_state c bytes) p.streams) (bounded) (h)

-- Making the entry of a chunk stream that waits.
opened-Inv :
    (k : ℕ) (st : StreamState) (p : Parser)
    → Inv p
    → Known (view p) k st
    → Inv (record p { streams = put k st p.streams })
opened-Inv k st p v known =
    let (sum, part, few, fits) = put-Known p k st st v.sound known in
    record {
      sound = record {
        wide = v.sound.wide;
        narrow = v.sound.narrow;
        counted = omega (arith, v.sound.counted, sum);
        few = few;
        whole = Every-put (WithinMessage p.max_message_size) k st p.streams v.sound.whole fits;
        chunked = v.sound.chunked;
      };
      bounded = v.bounded;
    }

apply-Inv :
    (w : Verdict) (p : Parser)
    → Inv p
    → p.failed ≡ false
    → inspect (view p) p.buffer ≡ w
    → Inv (apply w p).1
unfolding apply
apply-Inv need_header p v h e = v
apply-Inv (need_body k st) p v h e = opened-Inv k st p v (inspect-body (view p) p.buffer k st e)
apply-Inv (reject code) p v h e = fail-Inv code p v.sound h
apply-Inv (accept c) p v h e =
    let (a, known) = inspect-accept (view p) p.buffer c e in commit-Inv c p v h a known

run-Inv : (n : ℕ) (p : Parser) → Inv p → p.failed ≡ false → Inv (run n p)
unfolding run after_round decode_one
run-Inv zero p v h = v
run-Inv (suc n) p v h =
    go (run-Inv n) (decode_one p) (decode_one-Round p)
      (apply-Inv (inspect (view p) p.buffer) p v h refl)
  where
    go :
        ((q : Parser) → Inv q → q.failed ≡ false → Inv (run n q))
        → (r : DecodeResult × Parser) → Round p r
        → Inv r.1
        → Inv (after_round (run n) r)
    go ih (consumed, q) (shorter, calm) w = elim (Bool-cases q.failed) [
      | inl dead ↦ subst Inv (sym (run_empty n q (calm.emptied h dead))) w
      | inr alive ↦ ih q w alive
    ]
    go ih (insufficient_data, q) round w = w
    go ih (failure, q) round w = w

-- A decoder that is within its bounds stays so, whatever bytes arrive: the counter of buffered bytes
-- is exactly what the chunk streams hold and within its limit, the number of chunk streams is within
-- its limit, no message in progress is longer than the limit on messages, and the chunk size is not
-- 0. (The bounds include that the limits, which no call changes, leave room for the widths of the
-- counters.)
pub on_bytes_received-Inv :
    (bytes : List ℕ) (d : ChunkDecoder) → Inv d.parser → Inv (on_bytes_received bytes d).parser
on_bytes_received-Inv [] d v = rw on_bytes_received-nil v
on_bytes_received-Inv (x ∷ xs) d v = elim (Bool-cases d.parser.failed) [
  | inl dead ↦ rw (on_bytes_received-failed (x ∷ xs) d dead) v
  | inr alive ↦
      let p : Parser = record d.parser { buffer = d.parser.buffer ++ (x ∷ xs) } in
      subst Inv (sym (on_bytes_received-open x xs d alive)) (
        unfold feed in
        run-Inv _ p
          (record {
            sound = record {
              wide = v.sound.wide;
              narrow = v.sound.narrow;
              counted = v.sound.counted;
              few = v.sound.few;
              whole = v.sound.whole;
              chunked = v.sound.chunked;
            };
            bounded = v.bounded;
          })
          alive)
]
