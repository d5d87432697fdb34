-- ===== src/Chunk/Decoder/Fragments.antt =====
-- ChunkDecoder::on_bytes_received (src/protocol/chunk/chunk_decoder.cpp): the loop ends, and how the
-- transport cuts the bytes into calls changes nothing.
pub mod Cut
use rtmp_core.Base.{
  ℕ, zero, suc, ◌+◌, ◌≤◌, ◌<◌, ◌≡◌, ◌≢◌, refl, sym, ◌∙◌, inl, inr, Bool, true, false, List, [], ◌∷◌,
  ◌++◌, ap, arith, length, length-append, append-nil, append_assoc, if◌then◌else◌, Bool-cases,
}
use rtmp_core.Chunk.Decoder.{
  Parser, DecodeResult, consumed, insufficient_data, failure, decode_one, after_round, run, feed,
  view, ChunkDecoder, on_bytes_received, add64,
}
use mathlib.Core.Path.{subst}
use mathlib.Core.List.{flatten}
use rtmp_core.Chunk.Decoder.Inspect.{waits, inspect}
use rtmp_core.Chunk.Decoder.Extend.{
  extend, extend_result, extend_open, extend_failed, length-extend, decode_one-extend,
  decode_one-wait,
}
use rtmp_core.Chunk.Decoder.Rounds.{
  Round, Calm, decode_one-Round, decode_one_goes, decode_one_empty,
}

-- With more fuel than bytes the rounds do not depend on it.
run_fuel : (m n : ℕ) (p : Parser) → length p.buffer < m → length p.buffer < n → run m p ≡ run n p
unfolding run
run_fuel zero n p hm hn = absurd (omega arith)
run_fuel (suc m) zero p hm hn = absurd (omega arith)
run_fuel (suc m) (suc n) p hm hn = go (run_fuel m n) (decode_one p) (decode_one-Round p)
  where
    go :
        ((q : Parser) → length q.buffer < m → length q.buffer < n → run m q ≡ run n q)
        → (r : DecodeResult × Parser) → Round p r
        → after_round (run m) r ≡ after_round (run n) r
    go ih (consumed, q) (shorter, _) = ih q (omega arith) (omega arith)
    go ih (insufficient_data, q) r = refl
    go ih (failure, q) r = refl

-- The whole loop.
abbrev drain : Parser → Parser
drain p = run (suc (length p.buffer)) p

pub run_empty : (n : ℕ) (p : Parser) → p.buffer ≡ [] → run n p ≡ p
unfolding run
run_empty zero p e = refl
run_empty (suc n) p e = rw (decode_one_empty p e)

drain_failed :
    (more : List ℕ) (p : Parser) → p.failed ≡ true → p.buffer ≡ [] → drain (extend more p) ≡ p
drain_failed more p h e = rw (extend_failed more p h) (run_empty _ p e)

after_wait :
    (again : Parser → Parser) (r : DecodeResult × Parser)
    → r.0 ≡ insufficient_data
    → after_round again r ≡ r.1
unfolding after_round
after_wait again (consumed, q) h = cc
after_wait again (insufficient_data, q) h = refl
after_wait again (failure, q) h = refl

drain_step : (p : Parser) → drain p ≡ after_round (run (length p.buffer)) (decode_one p)
unfolding run
drain_step p = refl

module _ (more : List ℕ) where
  drain-wait :
      (n : ℕ) (p : Parser)
      → p.failed ≡ false
      → waits (inspect (view p) p.buffer) ≡ true
      → drain (extend more (run (suc n) p)) ≡ drain (extend more p)
  unfolding run
  drain-wait n p h w =
      let (waiting, alive, same, again) = decode_one-wait more p h w in
      let q = (decode_one p).1 in
      let size : length (extend more q).buffer ≡ length (extend more p).buffer =
        rw (extend_open more q alive, extend_open more p h, same) refl in
      rw (after_wait (run n) (decode_one p) waiting) (
        drain_step (extend more q)
        ∙ ap (λ r. after_round (run (length (extend more q).buffer)) r) again
        ∙ ap (λ k. after_round (run k) (decode_one (extend more p))) size
        ∙ sym (drain_step (extend more p)))

  drain-go :
      (n : ℕ) (p : Parser)
      → ((q : Parser)
          → length q.buffer < n
          → q.failed ≡ false
          → drain (extend more (run n q)) ≡ drain (extend more q))
      → length p.buffer < suc n
      → p.failed ≡ false
      → (r : DecodeResult × Parser) → Round p r
      → r.0 ≢ insufficient_data
      → decode_one (extend more p) ≡ extend_result more r
      → drain (extend more (after_round (run n) r)) ≡ drain (extend more p)
  unfolding after_round
  drain-go n p ih size h (consumed, q) (shorter, calm) goes e =
      let next : Parser = extend more q in
      let rounds : ℕ = length (extend more p).buffer in
      let on : drain (extend more p) ≡ run rounds next =
        drain_step (extend more p) ∙ ap (after_round (run rounds)) e in
      let enough : run rounds next ≡ drain next =
        run_fuel rounds (suc (length next.buffer)) next (length-extend more p q h shorter)
          (omega arith) in
      let here : drain (extend more (run n q)) ≡ drain next = elim (Bool-cases q.failed) [
        | inl dead ↦ ap (λ r. drain (extend more r)) (run_empty n q (calm.emptied h dead))
        | inr alive ↦ ih q (omega arith) alive
      ] in
      here ∙ sym (on ∙ enough)
  drain-go n p ih size h (insufficient_data, q) round goes e = absurd (goes refl)
  drain-go n p ih size h (failure, q) (dead, calm) goes e =
      drain_failed more q dead (calm.emptied h dead)
      ∙ sym (drain_step (extend more p) ∙ rw e (extend_failed more q dead))

-- What arrives later may as well have been there from the start.
drain-extend :
    (more : List ℕ) (n : ℕ) (p : Parser)
    → length p.buffer < n
    → p.failed ≡ false
    → drain (extend more (run n p)) ≡ drain (extend more p)
unfolding run after_round
drain-extend more zero p size h = absurd (omega arith)
drain-extend more (suc n) p size h = elim (Bool-cases (waits (inspect (view p) p.buffer))) [
  | inl w ↦ drain-wait more n p h w
  | inr w ↦
      drain-go more n p (drain-extend more n) size h (decode_one p) (decode_one-Round p)
        (decode_one_goes p w) (decode_one-extend more p h w)
]

pub feed-drain :
    (bytes : List ℕ) (p : Parser) → p.failed ≡ false → feed bytes p ≡ drain (extend bytes p)
unfolding feed
feed-drain bytes p h = rw (extend_open bytes p h) refl

feed-append :
    (a b : List ℕ) (p : Parser) → p.failed ≡ false → drain (extend b (feed a p)) ≡ feed (a ++ b) p
feed-append a b p h =
    let p' : Parser = record p { buffer = p.buffer ++ a } in
    rw (feed-drain a p h, extend_open a p h)
      (drain-extend b (suc (length p'.buffer)) p' (omega arith) h
        ∙ rw
            (
              extend_open b p' h,
              feed-drain (a ++ b) p h,
              extend_open (a ++ b) p h,
              append_assoc p.buffer a b,
            )
            refl)

pub on_bytes_received-open :
    (x : ℕ) (xs : List ℕ) (d : ChunkDecoder)
    → d.parser.failed ≡ false
    → (on_bytes_received (x ∷ xs) d).parser ≡ feed (x ∷ xs) d.parser
unfolding on_bytes_received
on_bytes_received-open x xs d h = ground arith

pub on_bytes_received-failed :
    (xs : List ℕ) (d : ChunkDecoder) → d.parser.failed ≡ true → on_bytes_received xs d ≡ d
unfolding on_bytes_received
on_bytes_received-failed xs d h = ground arith

pub on_bytes_received-nil : (d : ChunkDecoder) → on_bytes_received [] d ≡ d
unfolding on_bytes_received
on_bytes_received-nil d = ground arith

run_emptied :
    (n : ℕ) (p : Parser) → p.failed ≡ false → (run n p).failed ≡ true → (run n p).buffer ≡ []
unfolding run
run_emptied zero p h dead = cc
run_emptied (suc n) p h dead = go (run_emptied n) (decode_one p) (decode_one-Round p) dead
  where
    go :
        ((q : Parser) → q.failed ≡ false → (run n q).failed ≡ true → (run n q).buffer ≡ [])
        → (r : DecodeResult × Parser) → Round p r
        → (after_round (run n) r).failed ≡ true
        → (after_round (run n) r).buffer ≡ []
    go ih (consumed, q) (shorter, calm) e = elim (Bool-cases q.failed) [
      | inl gone ↦ let empty = calm.emptied h gone in rw (run_empty n q empty) empty
      | inr alive ↦ ih q alive e
    ]
    go ih (insufficient_data, q) (same, still) e = cc
    go ih (failure, q) (gone, calm) e = calm.emptied h gone

feed_emptied :
    (a : List ℕ) (p : Parser) → p.failed ≡ false → (feed a p).failed ≡ true → (feed a p).buffer ≡ []
unfolding feed
feed_emptied a p h = run_emptied _ (record p { buffer = p.buffer ++ a }) h

-- Two calls in a row do what one does.
pub on_bytes_received-append :
    (a b : List ℕ) (d : ChunkDecoder)
    → (on_bytes_received b (on_bytes_received a d)).parser ≡ (on_bytes_received (a ++ b) d).parser
on_bytes_received-append [] b d = rw on_bytes_received-nil
on_bytes_received-append (x ∷ xs) [] d = rw (on_bytes_received-nil, append-nil xs)
on_bytes_received-append (x ∷ xs) (y ∷ ys) d = elim (Bool-cases d.parser.failed) [
  | inl dead ↦
      rw
        (
          on_bytes_received-failed (x ∷ xs) d dead,
          on_bytes_received-failed (y ∷ ys) d dead,
          on_bytes_received-failed (x ∷ xs ++ y ∷ ys) d dead,
        )
        refl
  | inr alive ↦
      let first = on_bytes_received-open x xs d alive in
      let whole : drain (extend (y ∷ ys) (on_bytes_received (x ∷ xs) d).parser)
          ≡ (on_bytes_received (x ∷ xs ++ y ∷ ys) d).parser =
        ap (λ q. drain (extend (y ∷ ys) q)) first
        ∙ feed-append (x ∷ xs) (y ∷ ys) d.parser alive
        ∙ sym (on_bytes_received-open x (xs ++ y ∷ ys) d alive) in
      elim (Bool-cases (on_bytes_received (x ∷ xs) d).parser.failed) [
        | inl dead ↦
            ap (λ (e : ChunkDecoder). e.parser) (on_bytes_received-failed (y ∷ ys) _ dead)
            ∙ sym (
                drain_failed (y ∷ ys) (on_bytes_received (x ∷ xs) d).parser dead (
                  subst (λ (q : Parser). q.failed ≡ true → q.buffer ≡ []) (sym first)
                    (feed_emptied (x ∷ xs) d.parser alive) dead))
            ∙ whole
        | inr open' ↦ on_bytes_received-open y ys _ open' ∙ feed-drain (y ∷ ys) _ open' ∙ whole
      ]
]
