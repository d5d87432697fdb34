-- ===== src/Chunk/Encoder/BasicHeader.antt =====
-- The basic header that src/protocol/chunk/chunk_encoder.cpp writes, as chunk_decoder.cpp reads it.
use rtmp_core.Base.{
  ℕ, ◌+◌, ◌-◌, ◌*◌, ◌/◌, ◌%◌, ◌^◌, ◌≤◌, ◌<◌, ◌≡◌, refl, inl, inr, false, List, ◌∷◌, ◌++◌, arith,
  some, ltb, ltb→lt, ltb→le, le→ltb, ◌==◌, length, Bool-cases,
}
use rtmp_core.Core.ByteOrder.{byte_at}
use rtmp_core.Chunk.Encoder.{write_basic_header}
use rtmp_core.Chunk.Decoder.Inspect.{
  Front, read_front, message_header_len, basic_header_len, chunk_stream_id,
}

abbrev pub front : ℕ → ℕ → ℕ → Front
front fmt csid n = record {
  fmt = fmt;
  csid = csid;
  basic_header_len = n;
  message_header_len = message_header_len fmt;
}

reads :
    (buf : List ℕ) (fmt field csid n : ℕ)
    → byte_at buf 0 / 2 ^ 6 % 4 ≡ fmt
    → byte_at buf 0 % 64 ≡ field
    → chunk_stream_id field buf ≡ csid
    → basic_header_len field ≡ n
    → 1 ≤ n
    → n + message_header_len fmt ≤ length buf
    → read_front buf ≡ some (front fmt csid n)
unfolding read_front
reads buf fmt field csid n ef ei ec en pos room =
    let filled : (length buf == 0) ≡ false = ground arith in
    rw
      (
        ef,
        ei,
        ec,
        en,
        filled,
        le→ltb (length buf) n (omega arith),
        le→ltb (length buf) (n + message_header_len fmt) room,
      )
      refl

reads_short :
    (fmt csid : ℕ) (rest : List ℕ)
    → fmt < 4
    → 2 ≤ csid
    → csid < 64
    → message_header_len fmt ≤ length rest
    → read_front ((fmt % 4 * 64 + csid) ∷ rest) ≡ some (front fmt csid 1)
unfolding chunk_stream_id basic_header_len
reads_short fmt csid rest hf lo hi room =
    reads ((fmt % 4 * 64 + csid) ∷ rest) fmt csid csid 1 (omega arith) (omega arith) (ground arith)
      (ground arith) (omega arith) (omega arith)

reads_middle :
    (fmt csid : ℕ) (rest : List ℕ)
    → fmt < 4
    → 64 ≤ csid
    → message_header_len fmt ≤ length rest
    → read_front ((fmt % 4 * 64) ∷ (csid - 64) ∷ rest) ≡ some (front fmt csid 2)
unfolding chunk_stream_id basic_header_len
reads_middle fmt csid rest hf lo room =
    reads ((fmt % 4 * 64) ∷ (csid - 64) ∷ rest) fmt 0 csid 2 (omega arith) (omega arith)
      (ground arith) refl (omega arith) (omega arith)

reads_long :
    (fmt csid : ℕ) (rest : List ℕ)
    → fmt < 4
    → 64 ≤ csid
    → csid < 65600
    → message_header_len fmt ≤ length rest
    → read_front ((fmt % 4 * 64 + 1) ∷ ((csid - 64) % 256) ∷ ((csid - 64) / 256 % 256) ∷ rest)
      ≡ some (front fmt csid 3)
unfolding chunk_stream_id basic_header_len
reads_long fmt csid rest hf lo hi room =
    reads ((fmt % 4 * 64 + 1) ∷ ((csid - 64) % 256) ∷ ((csid - 64) / 256 % 256) ∷ rest) fmt 1 csid 3
      (omega arith) (omega arith) (omega arith) refl (omega arith) (omega arith)

-- The header that is written for a format and for a chunk stream ID from 2 to 65599 is read back as
-- that format and that ID, when the bytes of the message header follow.
pub read_front-write_basic_header :
    (fmt csid : ℕ) (rest : List ℕ)
    → fmt < 4
    → 2 ≤ csid
    → csid < 65600
    → message_header_len fmt ≤ length rest
    → read_front (write_basic_header fmt csid ++ rest)
      ≡ some (record {
        fmt = fmt;
        csid = csid;
        basic_header_len = length (write_basic_header fmt csid);
        message_header_len = message_header_len fmt;
      })
unfolding write_basic_header
read_front-write_basic_header fmt csid rest hf lo hi room = elim (Bool-cases (ltb csid 64)) [
  | inl short ↦ rw short (reads_short fmt csid rest hf lo (ltb→lt csid 64 short) room)
  | inr more ↦ elim (Bool-cases (ltb csid (64 + 256))) [
    | inl middle ↦ rw (more, middle) (reads_middle fmt csid rest hf (ltb→le csid 64 more) room)
    | inr long ↦ rw (more, long) (reads_long fmt csid rest hf (ltb→le csid 64 more) hi room)
  ]
]
