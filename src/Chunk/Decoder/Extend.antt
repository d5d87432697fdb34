-- ===== src/Chunk/Decoder/Extend.antt =====
-- One round of decode_one (src/protocol/chunk/chunk_decoder.cpp) is the same whether the bytes
-- behind the chunk have arrived or not.
use rtmp_core.Base.{
  ℕ, ◌+◌, ◌≤◌, ◌<◌, ◌≡◌, refl, Bool, true, false, List, ◌++◌, ap, arith, length, take, drop,
  length-append, length-drop, take-append, drop-append, if◌then◌else◌,
}
use rtmp_core.Core.Error.{ErrorCode, message_too_large}
use rtmp_core.Chunk.{RtmpMessage}
use rtmp_core.Chunk.Decoder.Streams.{StreamState, StreamTable, put}
use rtmp_core.Chunk.Decoder.Streams.Laws.{put-put}
use rtmp_core.Chunk.Decoder.Inspect.{
  Verdict, need_header, need_body, reject, accept, waits, Chunk, inspect,
}
use rtmp_core.Chunk.Decoder.Inspect.Append.{inspect-append}
use rtmp_core.Chunk.Decoder.Inspect.Facts.{AtStream, inspect-accept, inspect-reopen, inspect-at}
use rtmp_core.Chunk.Decoder.{
  Parser, insufficient_data, failure, fail, set_chunk_size, abort_message, handle_protocol_control,
  message_of, deliver, handle_complete_message, release, next_state, store, settle, finish,
  held_before, add64, commit, view, apply, decode_one,
}

-- More bytes arrive; a failed decoder takes none.
pub extend : List ℕ → Parser → Parser
extend more p = if p.failed then p else record p { buffer = p.buffer ++ more }

abbrev pub extend_result {ℓ} : {A : Type ℓ} → List ℕ → A × Parser → A × Parser
extend_result more (r, p) = (r, extend more p)

pub extend_failed : (more : List ℕ) (p : Parser) → p.failed ≡ true → extend more p ≡ p
unfolding extend
extend_failed more p h = rw h

pub length-extend :
    (more : List ℕ) (p q : Parser)
    → p.failed ≡ false
    → length q.buffer < length p.buffer
    → length (extend more q).buffer < length (extend more p).buffer
unfolding extend
length-extend more p q h shorter =
    ground (arith, length-append p.buffer more, length-append q.buffer more)

module _ (more : List ℕ) where
  fail-extend :
      (code : ErrorCode) (p : Parser) → fail code (extend more p) ≡ extend more (fail code p)
  unfolding fail extend
  fail-extend code p = ground arith

  set_chunk_size-extend :
      (n : ℕ) (p : Parser) → set_chunk_size n (extend more p) ≡ extend more (set_chunk_size n p)
  unfolding set_chunk_size extend
  set_chunk_size-extend n p = ground arith

  abort_message-extend :
      (k : ℕ) (p : Parser) → abort_message k (extend more p) ≡ extend more (abort_message k p)
  unfolding abort_message extend
  abort_message-extend k p = ground arith

  handle_protocol_control-extend :
      (m : RtmpMessage) (p : Parser)
      → handle_protocol_control m (extend more p) ≡ extend_result more (handle_protocol_control m p)
  unfolding handle_protocol_control extend
  handle_protocol_control-extend m p = ground arith

  deliver-extend :
      (m : RtmpMessage) (r : Bool × Parser)
      → deliver m (extend_result more r) ≡ extend more (deliver m r)
  unfolding deliver extend
  deliver-extend m (b, p) = ground arith

  release-extend :
      (k : ℕ) (st : StreamState) (p : Parser)
      → release k st (extend more p) ≡ extend more (release k st p)
  unfolding release extend
  release-extend k st p = ground arith

  handle_complete_message-extend :
      (k : ℕ) (st : StreamState) (p : Parser)
      → handle_complete_message k st (extend more p) ≡ extend more (handle_complete_message k st p)
  unfolding handle_complete_message
  handle_complete_message-extend k st p =
      rw (release-extend, handle_protocol_control-extend)
        (deliver-extend (message_of k st)
          (handle_protocol_control (message_of k st) (release k st p)))

  store-extend :
      (c : Chunk) (bytes : List ℕ) (p : Parser)
      → store c bytes (extend more p) ≡ extend more (store c bytes p)
  unfolding store extend
  store-extend c bytes p = ground arith

  extend_keeps :
      (p : Parser)
      → ((extend more p).buffered_payload_bytes ≡ p.buffered_payload_bytes)
        × ((extend more p).limits ≡ p.limits)
  unfolding extend
  extend_keeps p = ground arith

  settle-extend :
      (c : Chunk) (st : StreamState) (p : Parser)
      → settle c st (extend more p) ≡ extend_result more (settle c st p)
  unfolding settle
  settle-extend c st p = ground (
    arith,
    extend_keeps p,
    fail-extend message_too_large p,
    handle_complete_message-extend c.csid st p,
  )

  finish-extend :
      (c : Chunk) (bytes : List ℕ) (p : Parser)
      → finish c bytes (extend more p) ≡ extend_result more (finish c bytes p)
  unfolding finish
  finish-extend c bytes p = rw (store-extend c bytes p) (settle-extend c _ (store c bytes p))

  pub extend_open :
      (p : Parser) → p.failed ≡ false → extend more p ≡ record p { buffer = p.buffer ++ more }
  unfolding extend
  extend_open p h = rw h

  commit-extend :
      (c : Chunk) (p : Parser)
      → p.failed ≡ false
      → c.header_len + c.slice ≤ length p.buffer
      → commit c (extend more p) ≡ extend_result more (commit c p)
  unfolding commit
  commit-extend c p h fits =
      let body = drop c.header_len p.buffer in
      let p' : Parser = record p { buffer = drop c.slice body } in
      let room : c.slice ≤ length body = omega (arith, length-drop c.header_len p.buffer) in
      rw (extend_open p h) (
        rw
          (
            drop-append c.header_len p.buffer more (omega arith),
            take-append c.slice body more room,
            drop-append c.slice body more room,
          )
          (rw (← (extend_open p' h)) (finish-extend c (take c.slice body) p')))

  apply-extend :
      (w : Verdict) (p : Parser)
      → p.failed ≡ false
      → inspect (view p) p.buffer ≡ w
      → waits w ≡ false
      → apply w (extend more p) ≡ extend_result more (apply w p)
  unfolding apply
  apply-extend need_header p h e w = cc
  apply-extend (need_body k st) p h e w = cc
  apply-extend (reject code) p h e w = ap (λ q. (failure, q)) (fail-extend code p)
  apply-extend (accept c) p h e w =
      commit-extend c p h (inspect-accept (view p) p.buffer c e).0.fits

  -- With more bytes behind what it has, decode_one does the same, if it does not wait for them.
  pub decode_one-extend :
      (p : Parser)
      → p.failed ≡ false
      → waits (inspect (view p) p.buffer) ≡ false
      → decode_one (extend more p) ≡ extend_result more (decode_one p)
  unfolding decode_one
  decode_one-extend p h w = rw (
    ← (apply-extend (inspect (view p) p.buffer) p h refl w),
    extend_open p h,
    inspect-append (view p) p.buffer more w,
  )

-- The parser once the entry of the waiting chunk stream has been made.
abbrev with_stream : ℕ → StreamState → Parser → Parser
with_stream k st p = record p { streams = put k st p.streams }

put_at :
    (j k : ℕ) (st st' : StreamState) (t : StreamTable)
    → j ≡ k
    → put j st' (put k st t) ≡ put j st' t
put_at j k st st' t e = rw e (put-put k st st' t)

apply-with_stream :
    (k : ℕ) (st : StreamState) (w : Verdict) (p : Parser)
    → p.failed ≡ false
    → AtStream k w
    → apply w (with_stream k st p) ≡ apply w p
unfolding apply
apply-with_stream k st need_header p h at = absurd at
apply-with_stream k st (need_body j st') p h at =
    ap (λ t. (insufficient_data, record p { streams = t })) (put_at j k st st' p.streams at)
apply-with_stream k st (reject code) p h at = unfold fail in ground arith
apply-with_stream k st (accept c) p h at =
    unfold commit finish store in
    ap
      (λ t. settle c (next_state c (take c.slice (drop c.header_len p.buffer))) (record p {
        buffer = drop c.slice (drop c.header_len p.buffer);
        buffered_payload_bytes = add64 (held_before c p.buffered_payload_bytes) c.slice;
        streams = t;
      }))
      (put_at c.csid k st (next_state c (take c.slice (drop c.header_len p.buffer))) p.streams at)

module _ (more : List ℕ) where
  decode_one-reopened :
      (p : Parser) (k : ℕ) (st : StreamState)
      → p.failed ≡ false
      → inspect (view p) p.buffer ≡ need_body k st
      → decode_one (extend more (with_stream k st p)) ≡ decode_one (extend more p)
  unfolding decode_one
  decode_one-reopened p k st h e =
      let p' : Parser = record p { buffer = p.buffer ++ more } in
      rw
        (
          extend_open more p h,
          extend_open more (with_stream k st p) h,
          inspect-reopen (view p) p.buffer more k st e,
        )
        (apply-with_stream k st (inspect (view p) (p.buffer ++ more)) p' h
          (inspect-at (view p) p.buffer more k st e))

  apply-wait :
      (w : Verdict) (p : Parser)
      → p.failed ≡ false
      → inspect (view p) p.buffer ≡ w
      → waits w ≡ true
      → ((apply w p).0 ≡ insufficient_data)
        × ((apply w p).1.failed ≡ false)
        × ((apply w p).1.buffer ≡ p.buffer)
        × (decode_one (extend more (apply w p).1) ≡ decode_one (extend more p))
  unfolding apply
  apply-wait need_header p h e w = (refl, h, refl, refl)
  apply-wait (need_body k st) p h e w = (refl, h, refl, decode_one-reopened p k st h e)
  apply-wait (reject code) p h e w = cc
  apply-wait (accept c) p h e w = cc

  -- Where it waits, it is as if it had not been called before the bytes came.
  pub decode_one-wait :
      (p : Parser)
      → p.failed ≡ false
      → waits (inspect (view p) p.buffer) ≡ true
      → ((decode_one p).0 ≡ insufficient_data)
        × ((decode_one p).1.failed ≡ false)
        × ((decode_one p).1.buffer ≡ p.buffer)
        × (decode_one (extend more (decode_one p).1) ≡ decode_one (extend more p))
  unfolding decode_one
  decode_one-wait p h w = apply-wait (inspect (view p) p.buffer) p h refl w
