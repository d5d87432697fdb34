-- ===== src/Chunk/Decoder/Rounds.antt =====
-- What one round of decode_one (src/protocol/chunk/chunk_decoder.cpp) does to the buffer: the loop
-- of on_bytes_received ends.
use rtmp_core.Base.{
  ℕ, ◌+◌, ◌≤◌, ◌<◌, ◌≡◌, ◌≢◌, refl, Bool, true, false, List, [], arith, length, take, drop,
  length-drop,
}
use rtmp_core.Core.Error.{ErrorCode, message_too_large}
use rtmp_core.Chunk.{RtmpMessage}
use rtmp_core.Chunk.Decoder.Streams.{StreamState}
use rtmp_core.Chunk.Decoder.Inspect.{
  Verdict, need_header, need_body, reject, accept, waits, Chunk, inspect,
}
use rtmp_core.Chunk.Decoder.Inspect.Append.{inspect-nil}
use rtmp_core.Chunk.Decoder.Inspect.Facts.{inspect-accept}
use rtmp_core.Chunk.Decoder.{
  Parser, DecodeResult, consumed, insufficient_data, failure, fail, set_chunk_size, abort_message,
  handle_protocol_control, message_of, deliver, handle_complete_message, release, next_state, store,
  settle, finish, commit, view, apply, decode_one,
}

-- The buffer does not grow, and a decoder that fails has none left.
pub record Calm (p q : Parser) : Type 0 where
  pub shrinks : length q.buffer ≤ length p.buffer
  pub emptied : p.failed ≡ false → q.failed ≡ true → q.buffer ≡ []

fail-Calm : (code : ErrorCode) (p : Parser) → Calm p (fail code p)
unfolding fail
fail-Calm code p = ground arith

set_chunk_size-Calm : (n : ℕ) (p : Parser) → Calm p (set_chunk_size n p)
unfolding set_chunk_size
set_chunk_size-Calm n p = ground arith

abort_message-Calm : (k : ℕ) (p : Parser) → Calm p (abort_message k p)
unfolding abort_message
abort_message-Calm k p = ground arith

handle_protocol_control-Calm :
    (m : RtmpMessage) (p : Parser) → Calm p (handle_protocol_control m p).1
unfolding handle_protocol_control
handle_protocol_control-Calm m p = ground arith

deliver-Calm :
    (m : RtmpMessage) (p : Parser) (r : Bool × Parser) → Calm p r.1 → Calm p (deliver m r)
unfolding deliver
deliver-Calm m p (b, q) c = ground arith

handle_complete_message-Calm :
    (k : ℕ) (st : StreamState) (p : Parser) → Calm p (handle_complete_message k st p)
unfolding handle_complete_message release
handle_complete_message-Calm k st p =
    let calm = handle_protocol_control-Calm (message_of k st) (release k st p) in
    deliver-Calm (message_of k st) p (handle_protocol_control (message_of k st) (release k st p))
      (record { shrinks = calm.shrinks; emptied = calm.emptied })

settle-Calm : (c : Chunk) (st : StreamState) (p : Parser) → Calm p (settle c st p).1
unfolding settle
settle-Calm c st p =
    ground (arith, fail-Calm message_too_large p, handle_complete_message-Calm c.csid st p)

finish-Calm : (c : Chunk) (bytes : List ℕ) (p : Parser) → Calm p (finish c bytes p).1
unfolding finish store
finish-Calm c bytes p =
    let calm = settle-Calm c (next_state c bytes) (store c bytes p) in
    record { shrinks = calm.shrinks; emptied = calm.emptied }

fail_fails : (code : ErrorCode) (p : Parser) → (fail code p).failed ≡ true
unfolding fail
fail_fails code p = ground arith

-- One round, by its result.
abbrev pub Round : Parser → DecodeResult × Parser → Type 0
Round p (consumed, q) = (length q.buffer < length p.buffer) × Calm p q
Round p (insufficient_data, q) = (q.buffer ≡ p.buffer) × (q.failed ≡ p.failed)
Round p (failure, q) = (q.failed ≡ true) × Calm p q

-- After the bytes of a chunk are taken off.
settle-Round :
    (c : Chunk) (st : StreamState) (p q : Parser)
    → length q.buffer < length p.buffer
    → q.failed ≡ p.failed
    → Round p (settle c st q)
unfolding settle
settle-Round c st p q shorter same = ground (
  arith,
  fail_fails message_too_large q,
  fail-Calm message_too_large q,
  handle_complete_message-Calm c.csid st q,
)

commit-Round :
    (c : Chunk) (p : Parser)
    → 1 ≤ c.header_len
    → c.header_len + c.slice ≤ length p.buffer
    → Round p (commit c p)
unfolding commit finish store
commit-Round c p pos fits =
    let body = drop c.header_len p.buffer in
    settle-Round c (next_state c (take c.slice body)) p
      (store c (take c.slice body) (record p { buffer = drop c.slice body }))
      (omega (arith, length-drop c.slice body, length-drop c.header_len p.buffer)) refl

apply-Round : (w : Verdict) (p : Parser) → inspect (view p) p.buffer ≡ w → Round p (apply w p)
unfolding apply
apply-Round need_header p e = (refl, refl)
apply-Round (need_body k st) p e = (refl, refl)
apply-Round (reject code) p e = (fail_fails code p, fail-Calm code p)
apply-Round (accept c) p e =
    let (ok, known) = inspect-accept (view p) p.buffer c e in commit-Round c p ok.header_pos ok.fits

-- A round that goes on takes a byte at least; one that waits leaves the buffer; one that fails
-- leaves a failed decoder.
pub decode_one-Round : (p : Parser) → Round p (decode_one p)
unfolding decode_one
decode_one-Round p = apply-Round (inspect (view p) p.buffer) p refl

settle_goes : (c : Chunk) (st : StreamState) (p : Parser) → (settle c st p).0 ≢ insufficient_data
unfolding settle
settle_goes c st p = ground arith

apply_goes : (w : Verdict) (p : Parser) → waits w ≡ false → (apply w p).0 ≢ insufficient_data
unfolding apply commit finish
apply_goes need_header p h = cc
apply_goes (need_body k st) p h = cc
apply_goes (reject code) p h = λ e. cc
apply_goes (accept c) p h = settle_goes c _ _

-- A round says that it waits only where the front of the buffer does.
pub decode_one_goes :
    (p : Parser) → waits (inspect (view p) p.buffer) ≡ false → (decode_one p).0 ≢ insufficient_data
unfolding decode_one
decode_one_goes p h = apply_goes (inspect (view p) p.buffer) p h

-- On an empty buffer nothing happens.
pub decode_one_empty : (p : Parser) → p.buffer ≡ [] → decode_one p ≡ (insufficient_data, p)
unfolding decode_one apply
decode_one_empty p e = rw (e, inspect-nil (view p)) refl
