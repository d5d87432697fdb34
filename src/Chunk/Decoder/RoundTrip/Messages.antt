-- ===== src/Chunk/Decoder/RoundTrip/Messages.antt =====
-- ChunkDecoder::on_bytes_received (src/protocol/chunk/chunk_decoder.cpp) on the bytes of
-- encode_message_fmt0 (src/protocol/chunk/chunk_encoder.cpp).
use rtmp_core.Base.{
  ℕ, zero, suc, ◌+◌, ◌-◌, ◌≤◌, ◌<◌, ◌≡◌, refl, sym, ap, ◌∙◌, List, [], ◌∷◌, ◌++◌, arith, min,
  length, length-append, length-take, length-drop, take-append-drop, take, drop, append-nil,
  append_assoc,
}
use rtmp_core.Chunk.{RtmpMessage}
use rtmp_core.Chunk.Encoder.{
  write_basic_header, write_full_header, write_extended, write_rest, write_pieces,
  encode_message_fmt0,
}
use rtmp_core.Chunk.Decoder.{Parser, settle, decode_one, run, after_round, feed}
use rtmp_core.Chunk.Decoder.Streams.{StreamState}
use rtmp_core.Chunk.Decoder.Inspect.{Chunk}
use rtmp_core.Chunk.Decoder.Inspect.Accepts.{starting_chunk, continuing_chunk}
use rtmp_core.Chunk.Decoder.Fragments.{run_empty}
use rtmp_core.Chunk.Decoder.RoundTrip.Headers.{
  full_header, bare_header, OnWire, extended, fields_of, length-write_full_header,
}
use rtmp_core.Chunk.Decoder.RoundTrip.Commit.{
  Ready, state_of, during, received, settle-whole, settle-part,
}
use rtmp_core.Chunk.Decoder.RoundTrip.Pieces.{decode_one-first, decode_one-next}

module _ (m : RtmpMessage) (w : OnWire m) (p : Parser) (st : StreamState) (r : Ready m st p) where
  after-whole :
      (fuel : ℕ) (c : Chunk)
      → c.csid ≡ m.chunk_stream_id
      → after_round (run fuel) (settle c (state_of m m.payload 0) (during m m.payload 0 [] p))
        ≡ received m p
  unfolding after_round
  after-whole fuel c e = rw (settle-whole m p st r c e) (run_empty fuel (received m p) refl)

  -- From a piece to the end of the message.
  run-rest :
      (k : ℕ) (fuel : ℕ) (c : Chunk) (done rest : List ℕ) (remaining : ℕ)
      → done ++ rest ≡ m.payload
      → remaining ≡ length rest
      → c.csid ≡ m.chunk_stream_id
      → length rest ≤ k
      → length (write_rest k (bare_header m) p.input_chunk_size rest) < fuel
      → after_round (run fuel) (
          settle c
            (state_of m done remaining)
            (during m done remaining (write_rest k (bare_header m) p.input_chunk_size rest) p))
        ≡ received m p
  unfolding write_rest after_round run
  run-rest zero fuel c done [] remaining whole none_left e enough size =
      rw (none_left, sym (append-nil done) ∙ whole) (after-whole fuel c e)
  run-rest zero fuel c done (b ∷ bs) remaining whole some_left e enough size = absurd (omega arith)
  run-rest (suc k) fuel c done [] remaining whole none_left e enough size =
      rw (none_left, sym (append-nil done) ∙ whole) (after-whole fuel c e)
  run-rest (suc k) zero c done (b ∷ bs) remaining whole some_left e enough size =
      absurd (omega arith)
  run-rest (suc k) (suc fuel) c done (b ∷ bs) remaining whole some_left e enough size =
      let n = p.input_chunk_size in
      let rest = b ∷ bs in
      let chunked = r.chunked in
      let tail = write_rest k (bare_header m) n (drop n rest) in
      let c' =
        continuing_chunk n m.chunk_stream_id (state_of m done (length rest))
          (length (bare_header m)) in
      let all : length done + remaining ≡ length m.payload =
        omega (arith, ap length whole, length-append done rest) in
      let whole' : (done ++ take n rest) ++ drop n rest ≡ m.payload =
        append_assoc done (take n rest) (drop n rest)
        ∙ ap (◌++◌ done) (take-append-drop n rest)
        ∙ whole in
      let left : length rest - min (length rest) n ≡ length (drop n rest) =
        omega (arith, length-drop n rest) in
      let shorter : length tail < fuel = omega (
        arith,
        size,
        length-append (bare_header m) (take n rest ++ tail),
        length-append (take n rest) tail,
        length-take n rest,
      ) in
      ap (after_round (run (suc fuel))) (
        settle-part m p st r c done remaining ((bare_header m) ++ (take n rest ++ tail)) all
          (omega arith))
      ∙ ap (λ k. run (suc fuel) (during m done k ((bare_header m) ++ (take n rest ++ tail)) p))
          some_left
      ∙ ap (after_round (run fuel)) (decode_one-next m w p st r done rest tail whole (omega arith))
      ∙ run-rest k fuel c' (done ++ take n rest) (drop n rest) _ whole' left refl
          (omega (arith, length-drop n rest)) shorter

  encode_message_fmt0-pieces :
      let n = p.input_chunk_size in
      let tail = write_rest (length m.payload) (bare_header m) n (drop n m.payload) in
      encode_message_fmt0 n m ≡ (full_header m) ++ (take n m.payload ++ tail)
  unfolding encode_message_fmt0 write_pieces
  encode_message_fmt0-pieces =
      let basic = write_basic_header 0 m.chunk_stream_id in
      let header = write_full_header (extended m) m in
      let value = write_extended (extended m) m.timestamp in
      let body = write_pieces (bare_header m) p.input_chunk_size m.payload in
      sym (
        append_assoc basic (header ++ value) body
        ∙ ap (◌++◌ basic) (append_assoc header value body))

  full_header_long : 11 ≤ length (full_header m)
  full_header_long =
      let basic = write_basic_header 0 m.chunk_stream_id in
      let header = write_full_header (extended m) m in
      let value = write_extended (extended m) m.timestamp in
      omega (
        arith,
        length-append basic (header ++ value),
        length-append header value,
        length-write_full_header (extended m) m,
      )

  pub encode_message_fmt0_long : 1 ≤ length (encode_message_fmt0 p.input_chunk_size m)
  encode_message_fmt0_long =
      let n = p.input_chunk_size in
      let tail = write_rest (length m.payload) (bare_header m) n (drop n m.payload) in
      omega (
        arith,
        ap length encode_message_fmt0-pieces,
        full_header_long,
        length-append (full_header m) (take n m.payload ++ tail),
      )

  run-first :
      (fuel : ℕ) (buf : List ℕ)
      → let n = p.input_chunk_size in
        let tail = write_rest (length m.payload) (bare_header m) n (drop n m.payload) in
        buf ≡ (full_header m) ++ (take n m.payload ++ tail)
        → length buf ≤ fuel
        → run (suc fuel) (record p { buffer = buf }) ≡ received m p
  unfolding run
  run-first fuel buf e enough =
      let n = p.input_chunk_size in
      let c =
        starting_chunk n m.chunk_stream_id st (extended m) (length (full_header m)) (fields_of m)
          m.timestamp in
      let tail = write_rest (length m.payload) (bare_header m) n (drop n m.payload) in
      let shorter : length tail < fuel = omega (
        arith,
        ap length e,
        full_header_long,
        length-append (full_header m) (take n m.payload ++ tail),
        length-append (take n m.payload) tail,
      ) in
      ap (λ bytes. after_round (run fuel) (decode_one (record p { buffer = bytes }))) e
      ∙ ap (after_round (run fuel)) (decode_one-first m w p st r tail)
      ∙ run-rest (length m.payload) fuel c (take n m.payload) (drop n m.payload) _
          (take-append-drop n m.payload) (omega (arith, length-drop n m.payload)) refl
          (omega (arith, length-drop n m.payload)) shorter

  -- For a message whose fields fit their places on the wire, and an open decoder with an empty
  -- buffer that can take it (`Ready`), to feed the decoder the bytes that encode_message_fmt0 writes
  -- for the decoder's chunk size changes two things: that message is handed on, once, and the
  -- header state of its chunk stream is that of the message. No byte is left over.
  pub feed-encode_message_fmt0 : feed (encode_message_fmt0 p.input_chunk_size m) p ≡ received m p
  unfolding feed
  feed-encode_message_fmt0 =
      let bytes = encode_message_fmt0 p.input_chunk_size m in
      ap (λ old. run (suc (length (old ++ bytes))) (record p { buffer = old ++ bytes })) r.drained
      ∙ run-first (length bytes) bytes encode_message_fmt0-pieces (omega arith)
