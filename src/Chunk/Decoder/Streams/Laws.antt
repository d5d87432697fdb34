-- ===== src/Chunk/Decoder/Streams/Laws.antt =====
-- The table as a map from chunk stream IDs (chunk_decoder.hpp, `streams_`).
use rtmp_core.Base.{
  ℕ, ◌+◌, ◌≤◌, ◌≡◌, refl, none, some, [], ◌∷◌, arith, length, Bool-cases, inl, inr, ◌==◌,
  if◌then◌else◌,
}
use mathlib.Core.Path.{subst}
use rtmp_core.Chunk.Decoder.Streams.{StreamState, StreamTable, find, put}

pub find-put :
    (k j : ℕ) (st : StreamState) (t : StreamTable)
    → find j (put k st t) ≡ (if k == j then some st else find j t)
unfolding find put
find-put k j st [] = refl
find-put k j st ((i, old) ∷ t) = ground (arith, find-put k j st t)

pub put-find : (k : ℕ) (st : StreamState) (t : StreamTable) → find k t ≡ some st → put k st t ≡ t
unfolding find put
put-find k st [] e = cc
put-find k st ((i, old) ∷ t) e = ground (arith, put-find k st t)

pub put-put :
    (k : ℕ) (st st' : StreamState) (t : StreamTable) → put k st' (put k st t) ≡ put k st' t
unfolding put
put-put k st st' [] = ground arith
put-put k st st' ((i, old) ∷ t) = ground (arith, put-put k st st' t)

-- A new entry makes the table longer by one, a present one does not.
pub length-put_new :
    (k : ℕ) (st : StreamState) (t : StreamTable)
    → find k t ≡ none
    → length (put k st t) ≡ length t + 1
unfolding find put
length-put_new k st [] e = omega arith
length-put_new k st ((i, old) ∷ t) e = ground (arith, length-put_new k st t)

pub length-put_old :
    (k : ℕ) (st old : StreamState) (t : StreamTable)
    → find k t ≡ some old
    → length (put k st t) ≡ length t
unfolding find put
length-put_old k st old [] e = cc
length-put_old k st old ((i, other) ∷ t) e = ground (arith, length-put_old k st old t)

-- The bytes that the entries hold.
unfoldable pub held : StreamTable → ℕ
held [] = 0
held ((k, st) ∷ t) = length st.partial_payload + held t

pub held-put_new :
    (k : ℕ) (st : StreamState) (t : StreamTable)
    → find k t ≡ none
    → held (put k st t) ≡ held t + length st.partial_payload
unfolding find put held
held-put_new k st [] e = omega arith
held-put_new k st ((i, old) ∷ t) e = ground (arith, held-put_new k st t)

pub held-put_old :
    (k : ℕ) (st old : StreamState) (t : StreamTable)
    → find k t ≡ some old
    → held (put k st t) + length old.partial_payload ≡ held t + length st.partial_payload
unfolding find put held
held-put_old k st old [] e = cc
held-put_old k st old ((i, other) ∷ t) e = ground (arith, held-put_old k st old t)

pub le-held :
    (k : ℕ) (st : StreamState) (t : StreamTable)
    → find k t ≡ some st
    → length st.partial_payload ≤ held t
unfolding find held
le-held k st [] e = cc
le-held k st ((i, other) ∷ t) e = ground (arith, le-held k st t)

-- A property of every entry.
abbrev pub Every : (StreamState → Type 0) → StreamTable → Type 0
Every P [] = Unit {0}
Every P ((k, st) ∷ t) = P st × Every P t

pub Every-find :
    (P : StreamState → Type 0) (k : ℕ) (st : StreamState) (t : StreamTable)
    → Every P t
    → find k t ≡ some st
    → P st
unfolding find
Every-find P k st [] h e = cc
Every-find P k st ((j, old) ∷ t) (h, rest) e = elim (Bool-cases (j == k)) [
  | inl same ↦ let e' : old ≡ st = ground arith in subst P e' h
  | inr other ↦ Every-find P k st t rest (ground arith)
]

pub Every-put :
    (P : StreamState → Type 0) (k : ℕ) (st : StreamState) (t : StreamTable)
    → Every P t
    → P st
    → Every P (put k st t)
unfolding put
Every-put P k st [] h p = (p, tt)
Every-put P k st ((j, old) ∷ t) (h, rest) p = elim (Bool-cases (j == k)) [
  | inl same ↦ rw same (p, rest)
  | inr other ↦ rw other (h, Every-put P k st t rest p)
]

pub find-put_self : (k : ℕ) (st : StreamState) (t : StreamTable) → find k (put k st t) ≡ some st
find-put_self k st t = ground (arith, find-put k k st t)
