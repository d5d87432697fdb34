-- ===== src/Core/ByteReader/Pieces.antt =====
-- Several reads of bytes in a row (byte_reader.hpp).
use rtmp_core.Base.{
  ℕ, ◌+◌, ◌≤◌, ◌≡◌, refl, ap, le→leb, Option, some, List, [], ◌∷◌, take, drop, drop-drop, arith,
}
use rtmp_core.Core.ByteReader.{ByteReader, read_bytes, advanced, remaining_bytes}

abbrev pub sum_of : List ℕ → ℕ
sum_of [] = 0
sum_of (n ∷ ns) = n + sum_of ns

-- Reads of the given sizes, one after the other; a read that fails gives no bytes.
unfoldable pub read_pieces : List ℕ → ByteReader → List (Option (List ℕ)) × ByteReader
read_pieces [] r = ([], r)
read_pieces (n ∷ ns) r =
    let (piece, r') = read_bytes n r in
    let (pieces, r'') = read_pieces ns r' in (piece ∷ pieces, r'')

-- The span cut into pieces of the given sizes.
abbrev pub cut : List ℕ → List ℕ → List (Option (List ℕ))
cut [] xs = []
cut (n ∷ ns) xs = some (take n xs) ∷ cut ns (drop n xs)

read_bytes-there :
    (n : ℕ) (r : ByteReader)
    → n ≤ remaining_bytes r
    → read_bytes n r ≡ (some (take n (drop r.position r.data_)), advanced n r)
unfolding read_bytes
read_bytes-there n r h = rw (le→leb n (remaining_bytes r) h) refl

-- Reads that together fit the rest of the span all succeed, give its bytes in order without a gap or
-- an overlap, and move the cursor by the sum of their sizes.
pub read_pieces-cut :
    (ns : List ℕ) (r : ByteReader)
    → sum_of ns ≤ remaining_bytes r
    → read_pieces ns r ≡ (cut ns (drop r.position r.data_), advanced (sum_of ns) r)
unfolding read_pieces
read_pieces-cut [] r h =
    let e : r.position ≡ r.position + 0 = omega arith in
    ap (λ (p : ℕ). ([], record r { position = p })) e
read_pieces-cut (n ∷ ns) r h =
    let here : n ≤ remaining_bytes r = omega (arith, h) in
    let there : sum_of ns ≤ remaining_bytes (advanced n r) = omega (arith, h) in
    let e : r.position + n + sum_of ns ≡ r.position + (n + sum_of ns) = omega arith in
    rw
      (
        read_bytes-there n r here,
        read_pieces-cut ns (advanced n r) there,
        drop-drop r.position n r.data_,
      )
      (ap
        (λ (p : ℕ). (
          some (take n (drop r.position r.data_)) ∷ cut ns (drop (r.position + n) r.data_),
          record r { position = p },
        ))
        e)
