-- ===== src/Chunk/Decoder/Invariant/Keeps.antt =====
-- Each part of decode_one keeps the invariant (src/protocol/chunk/chunk_decoder.cpp).
use rtmp_core.Base.{
  ℕ, ◌^◌, ◌%◌, ◌≤◌, ◌<◌, ◌≡◌, refl, inl, inr, Bool, false, some, [], arith, length, Option-cases,
}
use rtmp_core.Core.Error.{ErrorCode, malformed_chunk, message_too_large}
use rtmp_core.Core.ByteOrder.{read_u32_be}
use rtmp_core.Chunk.{RtmpMessage}
use rtmp_core.Chunk.Decoder.Streams.{StreamState, find, put}
use rtmp_core.Chunk.Decoder.Streams.Laws.{
  held, held-put_old, le-held, length-put_old, Every-find, Every-put,
}
use rtmp_core.Chunk.Decoder.Inspect.{Chunk}
use rtmp_core.Chunk.Decoder.Invariant.{WithinMessage, Sound, Inv}
use rtmp_core.Chunk.Decoder.{
  Parser, fail, set_chunk_size, abort_message, handle_protocol_control, message_of, deliver,
  handle_complete_message, release, settle, sub64,
}

-- A failure clears the table.
pub fail-Inv : (code : ErrorCode) (p : Parser) → Sound p → p.failed ≡ false → Inv (fail code p)
unfolding fail held
fail-Inv code p s h = ground arith

set_chunk_size-Inv : (n : ℕ) (p : Parser) → Inv p → p.failed ≡ false → Inv (set_chunk_size n p)
unfolding set_chunk_size
set_chunk_size-Inv n p v h = ground (arith, fail-Inv malformed_chunk p v.sound h)

-- Replacing the entry of a chunk stream that is there.
replace-Inv :
    (p : Parser) (k : ℕ) (old st : StreamState)
    → Sound p
    → find k p.streams ≡ some old
    → st.partial_payload ≡ []
    → WithinMessage p.max_message_size st
    → p.buffered_payload_bytes < 2 ^ 64
    → Sound (record p {
      buffered_payload_bytes = sub64 p.buffered_payload_bytes (length old.partial_payload);
      streams = put k st p.streams;
    })
      × (sub64 p.buffered_payload_bytes (length old.partial_payload) ≤ p.buffered_payload_bytes)
replace-Inv p k old st s found empty within fits = (
  record {
    wide = s.wide;
    narrow = s.narrow;
    counted =
        omega (
          arith,
          s.counted,
          le-held k old p.streams found,
          held-put_old k st old p.streams found,
          e,
        );
    few = omega (arith, s.few, length-put_old k st old p.streams found);
    whole = Every-put (WithinMessage p.max_message_size) k st p.streams s.whole within;
    chunked = s.chunked;
  },
  omega (arith, s.counted, le-held k old p.streams found),
)
  where
    e : length st.partial_payload ≡ 0
    e = rw empty refl

abort_message-Inv : (k : ℕ) (p : Parser) → Inv p → Inv (abort_message k p)
unfolding abort_message
abort_message-Inv k p v = elim (Option-cases (find k p.streams)) [
  | inl e ↦ rw (e, abort_message) v
  | inr (st, e) ↦
      let fits : p.buffered_payload_bytes < 2 ^ 64 = omega (arith, v.bounded, v.sound.wide) in
      let st' : StreamState = record st { partial_payload = []; bytes_remaining = 0 } in
      let (sound, less) = replace-Inv p k st st' v.sound e refl (omega arith) fits in
      rw (e, abort_message)
        (record {
          sound = record {
            wide = sound.wide;
            narrow = sound.narrow;
            counted = sound.counted;
            few = sound.few;
            whole = sound.whole;
            chunked = sound.chunked;
          };
          bounded = omega (arith, less, v.bounded);
        })
]

handle_protocol_control-Inv :
    (m : RtmpMessage) (p : Parser) → Inv p → p.failed ≡ false → Inv (handle_protocol_control m p).1
unfolding handle_protocol_control
handle_protocol_control-Inv m p v h = ground (
  arith,
  fail-Inv malformed_chunk p v.sound h,
  set_chunk_size-Inv (read_u32_be m.payload 0 % 2 ^ 31) p v h,
  abort_message-Inv (read_u32_be m.payload 0) p v,
)

deliver-Inv : (m : RtmpMessage) (r : Bool × Parser) → Inv r.1 → Inv (deliver m r)
unfolding deliver
deliver-Inv m (b, q) v = ground arith

release-Inv :
    (k : ℕ) (st : StreamState) (p : Parser)
    → Inv p
    → find k p.streams ≡ some st
    → Inv (release k st p)
unfolding release
release-Inv k st p v e =
    let st' : StreamState = record st { partial_payload = [] } in
    let within = Every-find (WithinMessage p.max_message_size) k st p.streams v.sound.whole e in
    let fits : p.buffered_payload_bytes < 2 ^ 64 = omega (arith, v.bounded, v.sound.wide) in
    let (sound, less) = replace-Inv p k st st' v.sound e refl (omega (arith, within)) fits in
    record {
      sound = record {
        wide = sound.wide;
        narrow = sound.narrow;
        counted = sound.counted;
        few = sound.few;
        whole = sound.whole;
        chunked = sound.chunked;
      };
      bounded = omega (arith, less, v.bounded);
    }

handle_complete_message-Inv :
    (k : ℕ) (st : StreamState) (p : Parser)
    → Inv p
    → find k p.streams ≡ some st
    → p.failed ≡ false
    → Inv (handle_complete_message k st p)
unfolding handle_complete_message
handle_complete_message-Inv k st p v e h = deliver-Inv (message_of k st) _ (
    handle_protocol_control-Inv (message_of k st) (release k st p) (release-Inv k st p v e)
      (unfold release in h))

pub settle-Inv :
    (c : Chunk) (st : StreamState) (p : Parser)
    → Sound p
    → find c.csid p.streams ≡ some st
    → (c.slice ≡ 0 → p.buffered_payload_bytes ≤ p.limits.max_buffered_payload_bytes)
    → p.failed ≡ false
    → Inv (settle c st p).1
unfolding settle
settle-Inv c st p s e empty h = ground (
  arith,
  fail-Inv message_too_large p s h,
  λ (b : p.buffered_payload_bytes ≤ p.limits.max_buffered_payload_bytes).
      handle_complete_message-Inv c.csid st p (record { sound = s; bounded = b }) e h,
)
