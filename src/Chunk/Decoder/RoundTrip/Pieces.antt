-- ===== src/Chunk/Decoder/RoundTrip/Pieces.antt =====
-- decode_one (src/protocol/chunk/chunk_decoder.cpp) on one piece of what encode_message_fmt0 writes
-- (src/protocol/chunk/chunk_encoder.cpp).
use rtmp_core.Base.{
  ℕ, ◌+◌, ◌-◌, ◌≤◌, ◌≡◌, refl, sym, ap, ◌∙◌, List, ◌++◌, arith, min, length, length-append,
  length-take, take_length-append, drop_length-append, take, ◌==◌, if◌then◌else◌, append_assoc,
}
use rtmp_core.Core.ByteOrder.{read_u32_be}
use rtmp_core.Chunk.{RtmpMessage, extended_timestamp_marker}
use rtmp_core.Chunk.Encoder.{write_basic_header, write_full_header, write_extended}
use rtmp_core.Chunk.Decoder.{
  Parser, view, settle, store, next_state, begin_message, held_before, finish, commit, apply,
  decode_one, add64, sub64,
}
use rtmp_core.Chunk.Decoder.Streams.{StreamState}
use rtmp_core.Chunk.Decoder.Streams.Laws.{put-put, find-put_self}
use rtmp_core.Chunk.Decoder.Inspect.{Chunk, accept, inspect, is_continuation}
use rtmp_core.Chunk.Decoder.Inspect.Accepts.{
  starting_chunk, continuing_chunk, inspect-starting, inspect-continuing,
}
use rtmp_core.Chunk.Decoder.RoundTrip.Headers.{
  full_header, bare_header, OnWire, extended, extra, fields_of, length-write_full_header,
  length-write_extended, front-full, front-bare, read_fields-write_full_header,
  read_u32_be-write_extended,
}
use rtmp_core.Chunk.Decoder.RoundTrip.Commit.{Ready, state_of, during}

-- The chunk's header and its slice come off the front of the buffer.
commit-front :
    (c : Chunk) (p : Parser) (header slice tail : List ℕ)
    → p.buffer ≡ header ++ (slice ++ tail)
    → length header ≡ c.header_len
    → length slice ≡ c.slice
    → commit c p ≡ finish c slice (record p { buffer = tail })
unfolding commit
commit-front c p header slice tail there e e' =
    rw
      (
        there,
        sym e,
        drop_length-append header (slice ++ tail),
        sym e',
        take_length-append slice tail,
        drop_length-append slice tail,
      )
      refl

decode_one-accept :
    (c : Chunk) (p : Parser) → inspect (view p) p.buffer ≡ accept c → decode_one p ≡ commit c p
unfolding decode_one apply
decode_one-accept c p e = rw e refl

module _ (m : RtmpMessage) (w : OnWire m) (p : Parser) (st : StreamState) (r : Ready m st p) where
  finish-first :
      (total : ℕ) (buf : List ℕ)
      → let n = p.input_chunk_size in
        let c =
          starting_chunk n m.chunk_stream_id st (extended m) total (fields_of m) m.timestamp in
        finish c (take n m.payload) (record p { buffer = buf })
        ≡ settle c
            (state_of m (take n m.payload) (length m.payload - min (length m.payload) n))
            (during m (take n m.payload) (length m.payload - min (length m.payload) n) buf p)
  unfolding finish store next_state begin_message held_before
  finish-first total buf =
      let room = r.room in
      let wide = r.wide in
      let n = p.input_chunk_size in
      let none_held : add64 (sub64 p.buffered_payload_bytes (length st.partial_payload))
            (min (length m.payload) n)
          ≡ p.buffered_payload_bytes + length (take n m.payload) =
        rw r.clear (omega (arith, length-take n m.payload)) in
      rw none_held refl

  finish-next :
      (total : ℕ) (done : List ℕ) (rest : List ℕ) (old buf : List ℕ)
      → done ++ rest ≡ m.payload
      → let n = p.input_chunk_size in
        let here = state_of m done (length rest) in
        let c = continuing_chunk n m.chunk_stream_id here total in
        finish c (take n rest) (record (during m done (length rest) old p) { buffer = buf })
        ≡ settle c
            (state_of m (done ++ take n rest) (length rest - min (length rest) n))
            (during m (done ++ take n rest) (length rest - min (length rest) n) buf p)
  unfolding finish store next_state begin_message held_before
  finish-next total done rest old buf whole =
      let room = r.room in
      let wide = r.wide in
      let n = p.input_chunk_size in
      let size : length done + length rest ≡ length m.payload =
        sym (length-append done rest) ∙ ap length whole in
      let held : add64 (p.buffered_payload_bytes + length done) (min (length rest) n)
          ≡ p.buffered_payload_bytes + length (done ++ take n rest) =
        omega (arith, length-take n rest, length-append done (take n rest)) in
      rw
        (
          held,
          put-put m.chunk_stream_id (state_of m done (length rest))
              (state_of m (done ++ take n rest) (length rest - min (length rest) n)) p.streams,
        )
        refl

  inspect-first :
      (body : List ℕ)
      → min (length m.payload) p.input_chunk_size ≤ length body
      → inspect (view p) ((full_header m) ++ body)
        ≡ accept (
            starting_chunk p.input_chunk_size m.chunk_stream_id st
              (extended m)
              (length (full_header m))
              (fields_of m)
              m.timestamp)
  inspect-first body there =
      let basic = write_basic_header 0 m.chunk_stream_id in
      let header = write_full_header (extended m) m in
      let value = write_extended (extended m) m.timestamp in
      let timed = w.timed in
      let flat : (full_header m) ++ body ≡ basic ++ (header ++ (value ++ body)) =
        append_assoc basic (header ++ value) body
        ∙ ap (◌++◌ basic) (append_assoc header value body) in
      let total : length (full_header m) ≡ length basic + 11 + extra m = omega (
        arith,
        length-append basic (header ++ value),
        length-append header value,
        length-write_full_header (extended m) m,
        length-write_extended m,
      ) in
      let size : length (basic ++ (header ++ (value ++ body)))
          ≡ length (full_header m) + length body =
        ap length (sym flat) ∙ length-append (full_header m) body in
      let eleven : 11 ≤ length (header ++ (value ++ body)) =
        omega
          (arith, length-append header (value ++ body), length-write_full_header (extended m) m) in
      let marked : ((fields_of m).raw_ts_field == extended_timestamp_marker) ≡ extended m =
        ground arith in
      let time : m.timestamp ≡ (
          if extended m
          then read_u32_be (basic ++ (header ++ (value ++ body))) (length basic + 11)
          else (fields_of m).raw_ts_field) =
        ground (arith, read_u32_be-write_extended m w basic body) in
      ap (inspect (view p)) flat
      ∙ inspect-starting (view p) (basic ++ (header ++ (value ++ body))) m.chunk_stream_id
          (length basic) st (fields_of m) (extended m) (length (full_header m)) m.timestamp
          (front-full m w (header ++ (value ++ body)) eleven) r.known
          (read_fields-write_full_header m w st basic (value ++ body)) r.idle marked total time
          r.small (omega (arith, size, there))

  inspect-next :
      (done rest body : List ℕ) (old : List ℕ)
      → 1 ≤ length rest
      → min (length rest) p.input_chunk_size ≤ length body
      → inspect (view (during m done (length rest) old p)) ((bare_header m) ++ body)
        ≡ accept (
            continuing_chunk p.input_chunk_size m.chunk_stream_id
              (state_of m done (length rest))
              (length (bare_header m)))
  unfolding is_continuation
  inspect-next done rest body old more there =
      let basic = write_basic_header 3 m.chunk_stream_id in
      let value = write_extended (extended m) m.timestamp in
      let here = state_of m done (length rest) in
      let total : length (bare_header m) ≡ length basic + extra m =
        omega (arith, length-append basic value, length-write_extended m) in
      inspect-continuing (view (during m done (length rest) old p)) ((bare_header m) ++ body)
        m.chunk_stream_id (length basic) here (length (bare_header m))
        (rw (append_assoc basic value body) (front-bare m w (value ++ body)))
        (find-put_self m.chunk_stream_id here p.streams) (ground arith) total
        (omega (arith, length-append (bare_header m) body))

  -- One piece: the first one, and one that goes on.
  pub decode_one-first :
      (tail : List ℕ)
      → let n = p.input_chunk_size in
        let remaining = length m.payload - min (length m.payload) n in
        decode_one (record p { buffer = (full_header m) ++ (take n m.payload ++ tail) })
        ≡ settle
            (starting_chunk n m.chunk_stream_id st
              (extended m)
              (length (full_header m))
              (fields_of m)
              m.timestamp)
            (state_of m (take n m.payload) remaining)
            (during m (take n m.payload) remaining tail p)
  decode_one-first tail =
      let n = p.input_chunk_size in
      let c =
        starting_chunk n m.chunk_stream_id st (extended m) (length (full_header m)) (fields_of m)
          m.timestamp in
      let slice = take n m.payload in
      let buf = (full_header m) ++ (slice ++ tail) in
      decode_one-accept c (record p { buffer = buf })
        (inspect-first (slice ++ tail)
          (omega (arith, length-append slice tail, length-take n m.payload)))
      ∙ commit-front c (record p { buffer = buf }) (full_header m) slice tail refl refl
          (omega (arith, length-take n m.payload))
      ∙ finish-first (length (full_header m)) tail

  pub decode_one-next :
      (done rest tail : List ℕ)
      → done ++ rest ≡ m.payload
      → 1 ≤ length rest
      → let n = p.input_chunk_size in
        let remaining = length rest - min (length rest) n in
        decode_one (during m done (length rest) ((bare_header m) ++ (take n rest ++ tail)) p)
        ≡ settle
            (continuing_chunk n m.chunk_stream_id
              (state_of m done (length rest))
              (length (bare_header m)))
            (state_of m (done ++ take n rest) remaining)
            (during m (done ++ take n rest) remaining tail p)
  decode_one-next done rest tail whole more =
      let n = p.input_chunk_size in
      let slice = take n rest in
      let buf = (bare_header m) ++ (slice ++ tail) in
      let c =
        continuing_chunk n m.chunk_stream_id (state_of m done (length rest))
          (length (bare_header m)) in
      decode_one-accept c (during m done (length rest) buf p) (
        inspect-next done rest (slice ++ tail) buf more
          (omega (arith, length-append slice tail, length-take n rest)))
      ∙ commit-front c (during m done (length rest) buf p) (bare_header m) slice tail refl refl
          (omega (arith, length-take n rest))
      ∙ finish-next (length (bare_header m)) done rest buf tail whole
