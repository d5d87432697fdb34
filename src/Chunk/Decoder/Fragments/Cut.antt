-- ===== src/Chunk/Decoder/Fragments/Cut.antt =====
-- ChunkDecoder::on_bytes_received (src/protocol/chunk/chunk_decoder.cpp) over many calls.
use rtmp_core.Base.{
  ℕ, zero, suc, ◌<◌, ◌≡◌, ◌≢◌, refl, sym, ◌∙◌, ◌⊎◌, inl, inr, true, false, List, [], ◌∷◌, ◌++◌, ap,
  arith, length, append-nil, Bool-cases,
}
use rtmp_core.Chunk.Decoder.{
  Parser, DecodeResult, consumed, insufficient_data, failure, decode_one, after_round, run, feed,
  view, ChunkDecoder, on_bytes_received,
}
use mathlib.Core.Path.{subst}
use mathlib.Core.List.{flatten}
use rtmp_core.Chunk.Decoder.Inspect.{waits, inspect}
use rtmp_core.Chunk.Decoder.Extend.{extend, extend_open, extend_failed, decode_one-wait}
use rtmp_core.Chunk.Decoder.Fragments.{
  on_bytes_received-append, on_bytes_received-nil, on_bytes_received-open, feed-drain, drain,
  after_wait, run_empty, feed_emptied,
}
use rtmp_core.Chunk.Decoder.Rounds.{Round, decode_one-Round, decode_one_goes, decode_one_empty}

-- The calls that the transport makes, one after the other.
unfoldable pub receive_all : List (List ℕ) → ChunkDecoder → ChunkDecoder
receive_all [] d = d
receive_all (xs ∷ rest) d = receive_all rest (on_bytes_received xs d)

receive_all-flatten :
    (calls : List (List ℕ)) (d : ChunkDecoder)
    → (receive_all calls d).parser ≡ (on_bytes_received (flatten calls) d).parser
unfolding receive_all flatten
receive_all-flatten [] d = rw on_bytes_received-nil
receive_all-flatten (xs ∷ rest) d =
    receive_all-flatten rest (on_bytes_received xs d) ∙ on_bytes_received-append xs (flatten rest) d

-- However the transport cuts the same bytes into calls, the decoder ends with the same buffer, the
-- same chunk streams and limits, the same failure flag, and the same calls of its handlers in the
-- same order. (Its count of received bytes is not part of the claim: after a failure no bytes are
-- counted.)
pub receive_all-cut :
    (calls calls' : List (List ℕ)) (d : ChunkDecoder)
    → flatten calls ≡ flatten calls'
    → (receive_all calls d).parser ≡ (receive_all calls' d).parser
receive_all-cut calls calls' d e =
    receive_all-flatten calls d
    ∙ ap (λ bytes. (on_bytes_received bytes d).parser) e
    ∙ sym (receive_all-flatten calls' d)

extend-nil : (p : Parser) → extend [] p ≡ p
extend-nil p = elim (Bool-cases p.failed) [
  | inl dead ↦ extend_failed [] p dead
  | inr alive ↦ extend_open [] p alive ∙ rw (append-nil p.buffer) refl
]

wait_again :
    (p : Parser)
    → p.failed ≡ false
    → waits (inspect (view p) p.buffer) ≡ true
    → (decode_one (decode_one p).1).0 ≡ insufficient_data
wait_again p h w =
    let (waiting, alive, same, again) = decode_one-wait [] p h w in
    ap (λ (q : Parser). (decode_one q).0) (sym (extend-nil (decode_one p).1))
    ∙ ap (λ (r : DecodeResult × Parser). r.0) again
    ∙ ap (λ (q : Parser). (decode_one q).0) (extend-nil p)
    ∙ waiting

run_settles :
    (n : ℕ) (p : Parser)
    → length p.buffer < n
    → p.failed ≡ false
    → (run n p).failed ≡ false
    → (decode_one (run n p)).0 ≡ insufficient_data
unfolding run
run_settles zero p size h alive = absurd (omega arith)
run_settles (suc n) p size h alive = elim (Bool-cases (waits (inspect (view p) p.buffer))) [
  | inl w ↦
      let (waiting, _, _, _) = decode_one-wait [] p h w in
      subst (λ (q : Parser). (decode_one q).0 ≡ insufficient_data)
        (sym (after_wait (run n) (decode_one p) waiting)) (wait_again p h w)
  | inr w ↦ go (run_settles n) (decode_one p) (decode_one-Round p) (decode_one_goes p w) alive
]
  where
    go :
        ((q : Parser)
          → length q.buffer < n
          → q.failed ≡ false
          → (run n q).failed ≡ false
          → (decode_one (run n q)).0 ≡ insufficient_data)
        → (r : DecodeResult × Parser) → Round p r
        → r.0 ≢ insufficient_data
        → (after_round (run n) r).failed ≡ false
        → (decode_one (after_round (run n) r)).0 ≡ insufficient_data
    go ih (consumed, q) (shorter, calm) goes alive = elim (Bool-cases q.failed) [
      | inl dead ↦
          let empty = calm.emptied h dead in rw (run_empty n q empty, decode_one_empty q empty) refl
      | inr fine ↦ ih q (omega arith) fine alive
    ]
    go ih (insufficient_data, q) round goes alive = absurd (goes refl)
    go ih (failure, q) (dead, calm) goes alive = cc

feed_settles :
    (xs : List ℕ) (p : Parser)
    → p.failed ≡ false
    → (feed xs p).failed ≡ false
    → (decode_one (feed xs p)).0 ≡ insufficient_data
feed_settles xs p h =
    let p' : Parser = record p { buffer = p.buffer ++ xs } in
    subst (λ (q : Parser). q.failed ≡ false → (decode_one q).0 ≡ insufficient_data)
      (sym (feed-drain xs p h ∙ ap drain (extend_open xs p h)))
      (run_settles (suc (length p'.buffer)) p' (omega arith) h)

-- Bytes given to a decoder that has not failed are worked off: the loop ends, and unless the decoder
-- has failed then, decode_one waits for more bytes; a failed decoder keeps no byte.
pub on_bytes_received_ends :
    (xs : List ℕ) (d : ChunkDecoder)
    → d.parser.failed ≡ false
    → xs ≢ []
    → let p = (on_bytes_received xs d).parser in
      ((p.failed ≡ false) × ((decode_one p).0 ≡ insufficient_data))
      ⊎ ((p.failed ≡ true) × (p.buffer ≡ []))
on_bytes_received_ends [] d h ne = absurd (ne refl)
on_bytes_received_ends (x ∷ xs) d h ne =
    let p = (on_bytes_received (x ∷ xs) d).parser in
    let e = on_bytes_received-open x xs d h in
    elim (Bool-cases p.failed) [
      | inl dead ↦ inr (
        dead,
        subst (λ (q : Parser). q.failed ≡ true → q.buffer ≡ []) (sym e)
            (feed_emptied (x ∷ xs) d.parser h) dead,
      )
      | inr alive ↦ inl (
        alive,
        subst (λ (q : Parser). q.failed ≡ false → (decode_one q).0 ≡ insufficient_data) (sym e)
            (feed_settles (x ∷ xs) d.parser h) alive,
      )
    ]
