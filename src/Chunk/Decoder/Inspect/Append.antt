-- ===== src/Chunk/Decoder/Inspect/Append.antt =====
-- What `inspect` has found in a buffer it finds again when more bytes are behind it
-- (src/protocol/chunk/chunk_decoder.cpp, decode_one).
use rtmp_core.Base.{
  ℕ, ◌+◌, ◌%◌, ◌≤◌, ◌≡◌, refl, inl, inr, true, false, some, List, [], ◌++◌, arith, length,
  length-append, get_or-append, Option-cases,
}
use rtmp_core.Core.ByteOrder.{
  byte_at, read_u32_be, read_u24_be-append, read_u32_be-append, read_u32_le-append,
}
use rtmp_core.Chunk.Decoder.Streams.{StreamState, new_stream, find}
use rtmp_core.Chunk.Decoder.Inspect.{
  View, Front, Fields, waits, need_header, Chunk, basic_header_len, chunk_stream_id,
  message_header_len, front_of, read_front, read_fields, chunk_of, judge_chunk, inspect_fields,
  inspect_stream, inspect_front, inspect,
}

chunk_stream_id-append :
    (k : ℕ) (xs ys : List ℕ)
    → basic_header_len k ≤ length xs
    → chunk_stream_id k (xs ++ ys) ≡ chunk_stream_id k xs
unfolding chunk_stream_id basic_header_len
chunk_stream_id-append k xs ys h = ground (arith, get_or-append xs ys 1 0, get_or-append xs ys 2 0)

basic_header_len_pos : (k : ℕ) → (1 ≤ basic_header_len k) × (basic_header_len k ≤ 3)
unfolding basic_header_len
basic_header_len_pos k = ground arith

front_of-append :
    (b : ℕ) (xs ys : List ℕ)
    → basic_header_len (b % 64) ≤ length xs
    → front_of b (xs ++ ys) ≡ front_of b xs
front_of-append b xs ys h = ground (arith, chunk_stream_id-append (b % 64) xs ys h)

pub read_front_fits :
    (xs : List ℕ) (f : Front)
    → read_front xs ≡ some f
    → (1 ≤ f.basic_header_len)
      × (f.basic_header_len + f.message_header_len ≤ length xs)
      × (f.message_header_len ≡ message_header_len f.fmt)
unfolding read_front
read_front_fits xs f e = ground (arith, basic_header_len_pos (byte_at xs 0 % 64))

pub read_front-append :
    (xs ys : List ℕ) (f : Front) → read_front xs ≡ some f → read_front (xs ++ ys) ≡ some f
unfolding read_front
read_front-append xs ys f e = ground (
  arith,
  length-append xs ys,
  get_or-append xs ys 0 0,
  front_of-append (byte_at xs 0) xs ys,
  basic_header_len_pos (byte_at xs 0 % 64),
)

read_fields-append :
    (fmt : ℕ) (st : StreamState) (xs ys : List ℕ) (o : ℕ)
    → o + message_header_len fmt ≤ length xs
    → read_fields fmt st (xs ++ ys) o ≡ read_fields fmt st xs o
unfolding read_fields message_header_len
read_fields-append fmt st xs ys o h = ground (
  arith,
  read_u24_be-append xs ys o,
  read_u24_be-append xs ys (o + 3),
  get_or-append xs ys (o + 6) 0,
  read_u32_le-append xs ys (o + 7),
)

-- The result is the same for every longer buffer, once decode_one does not wait.
module _ (v : View) where
  judge_chunk-append :
      (m n : ℕ) (c : Chunk)
      → m ≤ n
      → waits (judge_chunk v m c) ≡ false
      → judge_chunk v n c ≡ judge_chunk v m c
  unfolding judge_chunk
  judge_chunk-append m n c h w = ground arith

  inspect_fields-append :
      (xs ys : List ℕ) (f : Front) (st : StreamState) (h : Fields)
      → waits (inspect_fields v xs f st h) ≡ false
      → inspect_fields v (xs ++ ys) f st h ≡ inspect_fields v xs f st h
  unfolding inspect_fields
  inspect_fields-append xs ys f st h w =
      let o = f.basic_header_len + f.message_header_len in
      let short = chunk_of v f st h false o 0 in
      let long = chunk_of v f st h true (o + 4) (read_u32_be xs o) in
      ground (
        arith,
        length-append xs ys,
        read_u32_be-append xs ys o,
        judge_chunk-append (length xs) (length (xs ++ ys)) short,
        judge_chunk-append (length xs) (length (xs ++ ys)) long,
      )

  inspect_stream-append :
      (xs ys : List ℕ) (f : Front) (st : StreamState)
      → f.basic_header_len + f.message_header_len ≤ length xs
      → f.message_header_len ≡ message_header_len f.fmt
      → waits (inspect_stream v xs f st) ≡ false
      → inspect_stream v (xs ++ ys) f st ≡ inspect_stream v xs f st
  unfolding inspect_stream
  inspect_stream-append xs ys f st fits len w = ground (
    arith,
    read_fields-append f.fmt st xs ys f.basic_header_len,
    inspect_fields-append xs ys f st (read_fields f.fmt st xs f.basic_header_len),
  )

  inspect_front-append :
      (xs ys : List ℕ) (f : Front)
      → f.basic_header_len + f.message_header_len ≤ length xs
      → f.message_header_len ≡ message_header_len f.fmt
      → waits (inspect_front v xs f) ≡ false
      → inspect_front v (xs ++ ys) f ≡ inspect_front v xs f
  unfolding inspect_front
  inspect_front-append xs ys f fits len w = elim (Option-cases (find f.csid v.streams)) [
    | inl e ↦ ground (arith, inspect_stream-append xs ys f new_stream fits len)
    | inr (st, e) ↦ ground (arith, inspect_stream-append xs ys f st fits len)
  ]

  pub inspect-append :
      (xs ys : List ℕ) → waits (inspect v xs) ≡ false → inspect v (xs ++ ys) ≡ inspect v xs
  unfolding inspect
  inspect-append xs ys w = elim (Option-cases (read_front xs)) [
    | inl e ↦ ground arith
    | inr (f, e) ↦
        let (_, fits, len) = read_front_fits xs f e in
        ground (arith, read_front-append xs ys f e, inspect_front-append xs ys f fits len)
  ]

pub inspect-nil : (v : View) → inspect v [] ≡ need_header
unfolding inspect read_front
inspect-nil v = refl
