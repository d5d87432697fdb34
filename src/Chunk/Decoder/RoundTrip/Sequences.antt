-- ===== src/Chunk/Decoder/RoundTrip/Sequences.antt =====
-- ChunkDecoder::on_bytes_received (src/protocol/chunk/chunk_decoder.cpp) on many messages of
-- encode_message_fmt0 (src/protocol/chunk/chunk_encoder.cpp), however the transport cuts them.
use rtmp_core.Base.{
  ℕ, ◌+◌, ◌^◌, ◌≤◌, ◌<◌, ◌≡◌, refl, sym, ap, ◌∙◌, inl, inr, false, List, [], ◌∷◌, ◌++◌, arith,
  length, append-nil, append_assoc, Option-cases,
}
use mathlib.Core.List.{flatten}
use rtmp_core.Chunk.{RtmpMessage}
use rtmp_core.Chunk.Encoder.{encode_message_fmt0}
use rtmp_core.Chunk.Decoder.{Parser, Call, delivered, ChunkDecoder, feed, on_bytes_received, view}
use rtmp_core.Chunk.Decoder.Streams.{StreamState, StreamTable, put, find, new_stream}
use rtmp_core.Chunk.Decoder.Streams.Laws.{
  Every, Every-find, Every-put, length-put_new, length-put_old,
}
use rtmp_core.Chunk.Decoder.Inspect.{is_continuation}
use rtmp_core.Chunk.Decoder.Inspect.Facts.{Known}
use rtmp_core.Chunk.Decoder.Fragments.{on_bytes_received-open}
use rtmp_core.Chunk.Decoder.Fragments.Cut.{receive_all, receive_all-cut}
use rtmp_core.Chunk.Decoder.RoundTrip.Headers.{OnWire}
use rtmp_core.Chunk.Decoder.RoundTrip.Commit.{Ready, is_control, received, state_of}
use rtmp_core.Chunk.Decoder.RoundTrip.Messages.{feed-encode_message_fmt0, encode_message_fmt0_long}

-- Nothing is in progress.
abbrev pub Quiet : StreamState → Type 0
Quiet st = (st.bytes_remaining ≡ 0) × (st.partial_payload ≡ [])

pub record Open (p : Parser) : Type 0 where
  pub alive : p.failed ≡ false
  pub drained : p.buffer ≡ []
  pub quiet : Every Quiet p.streams
  pub wide : p.limits.max_buffered_payload_bytes < 2 ^ 64
  pub chunked : 1 ≤ p.input_chunk_size

-- The message is within the limits, and none that the decoder acts on itself.
abbrev pub Fits : Parser → RtmpMessage → Type 0
Fits p m =
    OnWire m
    × (length m.payload ≤ p.max_message_size)
    × (p.buffered_payload_bytes + length m.payload ≤ p.limits.max_buffered_payload_bytes)
    × (is_control m ≡ false)

abbrev pub AllFit : Parser → List RtmpMessage → Type 0
AllFit p [] = Unit {0}
AllFit p (m ∷ ms) = Fits p m × AllFit p ms

abbrev pub encode_all : ℕ → List RtmpMessage → List (List ℕ)
encode_all chunk_size [] = []
encode_all chunk_size (m ∷ ms) = encode_message_fmt0 chunk_size m ∷ encode_all chunk_size ms

abbrev pub delivered_all : List RtmpMessage → List Call
delivered_all [] = []
delivered_all (m ∷ ms) = delivered m ∷ delivered_all ms

abbrev pub received_all : List RtmpMessage → Parser → Parser
received_all [] p = p
received_all (m ∷ ms) p = received_all ms (received m p)

-- The chunk streams once these messages have come.
abbrev pub used : List RtmpMessage → StreamTable → StreamTable
used [] t = t
used (m ∷ ms) t = used ms (put m.chunk_stream_id (state_of m [] 0) t)

le-put : (k : ℕ) (st : StreamState) (t : StreamTable) → length t ≤ length (put k st t)
le-put k st t = elim (Option-cases (find k t)) [
  | inl n ↦ omega (arith, length-put_new k st t n)
  | inr (old, n) ↦ omega (arith, length-put_old k st old t n)
]

le-used : (ms : List RtmpMessage) (t : StreamTable) → length t ≤ length (used ms t)
le-used [] t = omega arith
le-used (m ∷ ms) t =
    let t' = put m.chunk_stream_id (state_of m [] 0) t in
    omega (arith, le-put m.chunk_stream_id (state_of m [] 0) t, le-used ms t')

received-Open : (m : RtmpMessage) (p : Parser) → Open p → Open (received m p)
received-Open m p o = record {
  alive = o.alive;
  drained = refl;
  quiet = Every-put Quiet m.chunk_stream_id (state_of m [] 0) p.streams o.quiet (refl, refl);
  wide = o.wide;
  chunked = o.chunked;
}

Quiet-idle : (st : StreamState) → Quiet st → is_continuation st ≡ false
unfolding is_continuation
Quiet-idle st (none_left, _) = ground arith

Open-Ready :
    (m : RtmpMessage) (p : Parser)
    → Open p
    → Fits p m
    → length (put m.chunk_stream_id (state_of m [] 0) p.streams) ≤ p.limits.max_chunk_streams
    → (st : StreamState) × Ready m st p
Open-Ready m p o (_, small, room, free) few =
    elim (Option-cases (find m.chunk_stream_id p.streams)) [
      | inl n ↦ (
        new_stream,
        ready new_stream
            (inr (
              n,
              refl,
              omega (arith, length-put_new m.chunk_stream_id (state_of m [] 0) p.streams n),
            ))
            (refl, refl),
      )
      | inr (st, n) ↦
          (st, ready st (inl n) (Every-find Quiet m.chunk_stream_id st p.streams o.quiet n))
    ]
  where
    ready : (st : StreamState) → Known (view p) m.chunk_stream_id st → Quiet st → Ready m st p
    ready st known quiet = record {
      alive = o.alive;
      drained = o.drained;
      known = known;
      idle = Quiet-idle st quiet;
      clear = quiet.1;
      small = small;
      room = room;
      wide = o.wide;
      chunked = o.chunked;
      free = free;
    }

on_bytes_received-feed :
    (bytes : List ℕ) (d : ChunkDecoder)
    → d.parser.failed ≡ false
    → 1 ≤ length bytes
    → (on_bytes_received bytes d).parser ≡ feed bytes d.parser
on_bytes_received-feed [] d h some_bytes = absurd (omega arith)
on_bytes_received-feed (x ∷ xs) d h some_bytes = on_bytes_received-open x xs d h

received-AllFit :
    (m : RtmpMessage) (p : Parser) (ms : List RtmpMessage) → AllFit p ms → AllFit (received m p) ms
received-AllFit m p [] fit = tt
received-AllFit m p (m' ∷ ms) (fit, rest) = (fit, received-AllFit m p ms rest)

-- One message after the other, each in one call.
receive_in_turn :
    (ms : List RtmpMessage) (d : ChunkDecoder) (p : Parser)
    → d.parser ≡ p
    → Open p
    → AllFit p ms
    → length (used ms p.streams) ≤ p.limits.max_chunk_streams
    → (receive_all (encode_all p.input_chunk_size ms) d).parser ≡ received_all ms p
unfolding receive_all
receive_in_turn [] d p e o fit few = e
receive_in_turn (m ∷ ms) d p e o (fit, rest) few =
    let bytes = encode_message_fmt0 p.input_chunk_size m in
    let t = put m.chunk_stream_id (state_of m [] 0) p.streams in
    let (st, ready) = Open-Ready m p o fit (omega (arith, le-used ms t)) in
    let alive : d.parser.failed ≡ false = ap (λ (q : Parser). q.failed) e ∙ o.alive in
    let here : (on_bytes_received bytes d).parser ≡ received m p =
      on_bytes_received-feed bytes d alive (encode_message_fmt0_long m fit.0 p st ready)
      ∙ ap (feed bytes) e
      ∙ feed-encode_message_fmt0 m fit.0 p st ready in
    receive_in_turn ms (on_bytes_received bytes d) (received m p) here (received-Open m p o)
      (received-AllFit m p ms rest) few

calls-received_all :
    (ms : List RtmpMessage) (p : Parser)
    → p.buffer ≡ []
    → ((received_all ms p).calls ≡ p.calls ++ delivered_all ms) × ((received_all ms p).buffer ≡ [])
calls-received_all [] p e = (sym (append-nil p.calls), e)
calls-received_all (m ∷ ms) p e =
    let (later, empty) = calls-received_all ms (received m p) refl in
    (later ∙ append_assoc p.calls (delivered m ∷ []) (delivered_all ms), empty)

-- For a decoder that is open and has nothing in progress, and messages that fit their places on the
-- wire and the decoder's limits, are none that the decoder acts on itself, and need no more chunk
-- streams than the limit: however the transport cuts what encode_message_fmt0 writes for them with
-- the decoder's chunk size, the decoder hands on exactly these messages, in their order, reports no
-- error, and keeps no byte.
pub receive_all-encode_all :
    (ms : List RtmpMessage) (pieces : List (List ℕ)) (d : ChunkDecoder)
    → Open d.parser
    → AllFit d.parser ms
    → length (used ms d.parser.streams) ≤ d.parser.limits.max_chunk_streams
    → flatten pieces ≡ flatten (encode_all d.parser.input_chunk_size ms)
    → ((receive_all pieces d).parser.calls ≡ d.parser.calls ++ delivered_all ms)
      × ((receive_all pieces d).parser.buffer ≡ [])
receive_all-encode_all ms pieces d o fit few same =
    let p = d.parser in
    let all : (receive_all pieces d).parser ≡ received_all ms p =
      receive_all-cut pieces (encode_all p.input_chunk_size ms) d same
      ∙ receive_in_turn ms d p refl o fit few in
    let (calls, empty) = calls-received_all ms p o.drained in
    (ap (λ (q : Parser). q.calls) all ∙ calls, ap (λ (q : Parser). q.buffer) all ∙ empty)
