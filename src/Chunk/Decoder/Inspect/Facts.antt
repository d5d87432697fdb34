-- ===== src/Chunk/Decoder/Inspect/Facts.antt =====
-- What an accepted chunk and a waiting chunk stream say of the decoder and of the buffer
-- (src/protocol/chunk/chunk_decoder.cpp, decode_one).
use rtmp_core.Base.{
  ℕ, ◌+◌, ◌≤◌, ◌<◌, ◌≡◌, refl, sym, ◌∙◌, ◌⊎◌, inl, inr, true, not, none, some, List, ◌++◌, arith,
  min, length, if◌then◌else◌, Option-cases,
}
use mathlib.Core.Path.{subst}
use rtmp_core.Chunk.Decoder.Streams.{StreamState, new_stream, find, put}
use rtmp_core.Chunk.Decoder.Streams.Laws.{find-put}
use rtmp_core.Chunk.Decoder.Inspect.{
  View, Front, Fields, Verdict, need_header, need_body, reject, accept, Chunk, read_front,
  read_fields, is_continuation, chunk_of, judge_chunk, inspect_fields, inspect_stream,
  inspect_front, inspect,
}
use rtmp_core.Chunk.Decoder.Inspect.Append.{read_front_fits, read_front-append}

-- The entry of a chunk stream, or the one that is made for it within the limit.
abbrev pub Known : View → ℕ → StreamState → Type 0
Known v k st =
    (find k v.streams ≡ some st)
    ⊎ ((find k v.streams ≡ none)
        × (st ≡ new_stream)
        × (length v.streams < v.limits.max_chunk_streams))

-- What is committed for a whole chunk.
pub record Accepted (v : View) (size : ℕ) (c : Chunk) : Type 0 where
  pub header_pos : 1 ≤ c.header_len
  pub fits : c.header_len + c.slice ≤ size
  pub started : c.starting ≡ not (is_continuation c.state)
  pub small : c.starting ≡ true → c.length ≤ v.max_message_size
  pub sliced :
      c.slice ≡ min (if c.starting then c.length else c.state.bytes_remaining) v.input_chunk_size

module _ (v : View) where
  inspect_fields-accept :
      (xs : List ℕ) (f : Front) (st : StreamState) (h : Fields) (c : Chunk)
      → 1 ≤ f.basic_header_len
      → inspect_fields v xs f st h ≡ accept c
      → Accepted v (length xs) c × (c.csid ≡ f.csid) × (c.state ≡ st)
  unfolding inspect_fields chunk_of judge_chunk
  inspect_fields-accept xs f st h c pos e = ground arith

  inspect_fields-body :
      (xs : List ℕ) (f : Front) (st : StreamState) (h : Fields) (k : ℕ) (st' : StreamState)
      → inspect_fields v xs f st h ≡ need_body k st'
      → (k ≡ f.csid) × (st' ≡ st)
  unfolding inspect_fields chunk_of judge_chunk
  inspect_fields-body xs f st h k st' e = ground arith

  inspect_stream-accept :
      (xs : List ℕ) (f : Front) (st : StreamState) (c : Chunk)
      → 1 ≤ f.basic_header_len
      → inspect_stream v xs f st ≡ accept c
      → Accepted v (length xs) c × (c.csid ≡ f.csid) × (c.state ≡ st)
  unfolding inspect_stream
  inspect_stream-accept xs f st c pos e =
      ground
        (arith, inspect_fields-accept xs f st (read_fields f.fmt st xs f.basic_header_len) c pos)

  inspect_stream-body :
      (xs : List ℕ) (f : Front) (st : StreamState) (k : ℕ) (st' : StreamState)
      → inspect_stream v xs f st ≡ need_body k st'
      → (k ≡ f.csid) × (st' ≡ st)
  unfolding inspect_stream
  inspect_stream-body xs f st k st' e =
      ground (arith, inspect_fields-body xs f st (read_fields f.fmt st xs f.basic_header_len) k st')

  inspect_front-accept :
      (xs : List ℕ) (f : Front) (c : Chunk)
      → 1 ≤ f.basic_header_len
      → inspect_front v xs f ≡ accept c
      → Accepted v (length xs) c × Known v c.csid c.state
  unfolding inspect_front
  inspect_front-accept xs f c pos e = elim (Option-cases (find f.csid v.streams)) [
    | inl n ↦ ground (arith, inspect_stream-accept xs f new_stream c pos)
    | inr (st, n) ↦ ground (arith, inspect_stream-accept xs f st c pos)
  ]

  inspect_front-body :
      (xs : List ℕ) (f : Front) (k : ℕ) (st : StreamState)
      → inspect_front v xs f ≡ need_body k st
      → (k ≡ f.csid) × Known v k st
  unfolding inspect_front
  inspect_front-body xs f k st e = elim (Option-cases (find f.csid v.streams)) [
    | inl n ↦ ground (arith, inspect_stream-body xs f new_stream k st)
    | inr (st', n) ↦ ground (arith, inspect_stream-body xs f st' k st)
  ]

  pub inspect-accept :
      (xs : List ℕ) (c : Chunk)
      → inspect v xs ≡ accept c
      → Accepted v (length xs) c × Known v c.csid c.state
  unfolding inspect
  inspect-accept xs c e = elim (Option-cases (read_front xs)) [
    | inl n ↦ absurd (ground arith)
    | inr (f, n) ↦ inspect_front-accept xs f c (read_front_fits xs f n).0 (ground arith)
  ]

  pub inspect-body :
      (xs : List ℕ) (k : ℕ) (st : StreamState) → inspect v xs ≡ need_body k st → Known v k st
  unfolding inspect
  inspect-body xs k st e = elim (Option-cases (read_front xs)) [
    | inl n ↦ absurd (ground arith)
    | inr (f, n) ↦ (inspect_front-body xs f k st (ground arith)).1
  ]

-- The view in which the entry of a chunk stream has been made.
abbrev pub opened : View → ℕ → StreamState → View
opened v k st = record v { streams = put k st v.streams }

inspect_stream-opened :
    (v : View) (k : ℕ) (st : StreamState) (xs : List ℕ) (f : Front) (s : StreamState)
    → inspect_stream (opened v k st) xs f s ≡ inspect_stream v xs f s
unfolding inspect_stream inspect_fields judge_chunk chunk_of
inspect_stream-opened v k st xs f s = refl

module _ (v : View) where
  -- A waiting chunk stream that had no entry begins with format 0, so the entry that is made for it
  -- is used as the missing one would be.
  inspect_front-reopen :
      (xs zs : List ℕ) (f : Front) (k : ℕ) (st : StreamState)
      → inspect_front v xs f ≡ need_body k st
      → inspect_front (opened v k st) zs f ≡ inspect_front v zs f
  unfolding inspect_front
  inspect_front-reopen xs zs f k st e = elim (Option-cases (find f.csid v.streams)) [
    | inl n ↦ ground (
      arith,
      inspect_stream-body v xs f new_stream k st,
      find-put k f.csid st v.streams,
      inspect_stream-opened v k st zs f new_stream,
    )
    | inr (st', n) ↦ ground (
      arith,
      inspect_stream-body v xs f st' k st,
      find-put k f.csid st v.streams,
      inspect_stream-opened v k st zs f st',
    )
  ]

  pub inspect-reopen :
      (xs ys : List ℕ) (k : ℕ) (st : StreamState)
      → inspect v xs ≡ need_body k st
      → inspect (opened v k st) (xs ++ ys) ≡ inspect v (xs ++ ys)
  unfolding inspect
  inspect-reopen xs ys k st e = elim (Option-cases (read_front xs)) [
    | inl n ↦ absurd (ground arith)
    | inr (f, n) ↦
        ground (arith, read_front-append xs ys f n, inspect_front-reopen xs (xs ++ ys) f k st)
  ]

-- A verdict on the chunk stream `k`.
abbrev pub AtStream : ℕ → Verdict → Type 0
AtStream k need_header = ⊥
AtStream k (need_body j st) = j ≡ k
AtStream k (reject code) = Unit {0}
AtStream k (accept c) = c.csid ≡ k

module _ (v : View) where
  inspect_fields-at :
      (xs : List ℕ) (f : Front) (st : StreamState) (h : Fields)
      → AtStream f.csid (inspect_fields v xs f st h)
  unfolding inspect_fields chunk_of judge_chunk
  inspect_fields-at xs f st h = ground arith

  inspect_stream-at :
      (xs : List ℕ) (f : Front) (st : StreamState) → AtStream f.csid (inspect_stream v xs f st)
  unfolding inspect_stream
  inspect_stream-at xs f st =
      ground (arith, inspect_fields-at xs f st (read_fields f.fmt st xs f.basic_header_len))

  inspect_front-at : (xs : List ℕ) (f : Front) → AtStream f.csid (inspect_front v xs f)
  unfolding inspect_front
  inspect_front-at xs f = elim (Option-cases (find f.csid v.streams)) [
    | inl n ↦ ground (arith, inspect_stream-at xs f new_stream)
    | inr (st, n) ↦ ground (arith, inspect_stream-at xs f st)
  ]

  pub inspect-some :
      (xs : List ℕ) (f : Front) → read_front xs ≡ some f → inspect v xs ≡ inspect_front v xs f
  unfolding inspect
  inspect-some xs f e = ground arith

  pub inspect-at :
      (xs ys : List ℕ) (k : ℕ) (st : StreamState)
      → inspect v xs ≡ need_body k st
      → AtStream k (inspect v (xs ++ ys))
  inspect-at xs ys k st e = elim (Option-cases (read_front xs)) [
    | inl n ↦ unfold inspect in absurd (ground arith)
    | inr (f, n) ↦
        let body = sym (inspect-some xs f n) ∙ e in
        let later = inspect-some (xs ++ ys) f (read_front-append xs ys f n) in
        subst (λ j. AtStream j (inspect v (xs ++ ys))) (sym (inspect_front-body v xs f k st body).0)
          (subst (AtStream f.csid) (sym later) (inspect_front-at (xs ++ ys) f))
  ]
