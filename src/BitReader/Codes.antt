-- ===== src/BitReader/Codes.antt =====
-- What u and ue read (bit_reader.hpp), by the bits that are left.
use rtmp_core.Base.{
  ℕ, zero, suc, ◌+◌, ◌-◌, ◌*◌, ◌%◌, ◌^◌, ◌<◌, ◌≡◌, refl, ap, ◌∙◌, Bool, true, false, ◌||◌, leb,
  lt→leb, ◌==◌, List, [], ◌∷◌, ◌++◌, All, length, arith,
}
use rtmp_core.BitReader.{BitReader, bit, u_from, u, leading_zeros_from, ue_after, ue}
use rtmp_core.BitReader.Stream.{remaining, bit-next}

-- The number that bits spell, the highest first, after `value`.
abbrev pub spelled_after : ℕ → List ℕ → ℕ
spelled_after value [] = value
spelled_after value (b ∷ bs) = spelled_after (value * 2 + b) bs

abbrev pub spelled : List ℕ → ℕ
spelled bs = spelled_after 0 bs

abbrev pub AreBits : List ℕ → Type 0
AreBits bs = All (λ (b : ℕ). b < 2) bs

-- A read gives `n`, leaves `rest`, and keeps the flag.
pub record Reads (r : BitReader) (n : ℕ) (rest : List ℕ) (result : ℕ × BitReader) : Type 0 where
  pub value : result.0 ≡ n
  pub left : remaining result.1 ≡ rest
  pub flagged : result.1.overrun ≡ r.overrun

u_from-Reads :
    (bs rest : List ℕ) (value total : ℕ) (r : BitReader)
    → AreBits bs
    → remaining r ≡ bs ++ rest
    → value ≡ total % 2 ^ 32
    → Reads r (spelled_after total bs % 2 ^ 32) rest (u_from value (length bs) r)
unfolding u_from
u_from-Reads [] rest value total r small e v = record { value = v; left = e; flagged = refl }
u_from-Reads (b ∷ bs) rest value total r (low, small) e v =
    let (now, next, flag) = bit-next r b (bs ++ rest) e in
    let step : value * 2 % 2 ^ 32 + (bit r).0 ≡ (total * 2 + b) % 2 ^ 32 = omega (arith, now, v) in
    let ih =
      u_from-Reads bs rest (value * 2 % 2 ^ 32 + (bit r).0) (total * 2 + b) (bit r).1 small next
        step in
    record { value = ih.value; left = ih.left; flagged = ih.flagged ∙ flag }

-- `u` reads as many bits as it is asked for, and gives the number they spell, modulo 2 ^ 32.
u-Reads :
    (bs rest : List ℕ) (r : BitReader)
    → AreBits bs
    → remaining r ≡ bs ++ rest
    → Reads r (spelled bs % 2 ^ 32) rest (u (length bs) r)
unfolding u
u-Reads bs rest r small e = u_from-Reads bs rest 0 0 r small e (omega arith)

abbrev pub zeros_then : ℕ → List ℕ → List ℕ
zeros_then zero bs = bs
zeros_then (suc n) bs = 0 ∷ zeros_then n bs

leading_zeros-Reads :
    (zeros left n : ℕ) (rest : List ℕ) (r : BitReader)
    → zeros < left
    → r.overrun ≡ false
    → remaining r ≡ zeros_then zeros (1 ∷ rest)
    → Reads r (n + zeros) rest (leading_zeros_from left n r)
unfolding leading_zeros_from
leading_zeros-Reads z zero n rest r h alive e = absurd (omega arith)
leading_zeros-Reads zero (suc left) n rest r h alive e =
    let (now, next, flag) = bit-next r 1 rest e in
    let one : ((bit r).0 == 0) ≡ false = ground (arith, now) in
    rw (one, leading_zeros_from) (record { value = omega arith; left = next; flagged = flag })
leading_zeros-Reads (suc z) (suc left) n rest r h alive e =
    let (now, next, flag) = bit-next r 0 (zeros_then z (1 ∷ rest)) e in
    let nought : ((bit r).0 == 0) ≡ true = ground (arith, now) in
    let fine : (bit r).1.overrun ≡ false = flag ∙ alive in
    let ih = leading_zeros-Reads z left (n + 1) rest (bit r).1 (omega arith) fine next in
    rw (nought, fine, leading_zeros_from)
      (record { value = ih.value ∙ omega arith; left = ih.left; flagged = ih.flagged ∙ flag })

sum_mod : (a s : ℕ) → (a + s % 2 ^ 32) % 2 ^ 32 ≡ (a + s) % 2 ^ 32
sum_mod a s = omega arith

ue_after-Reads :
    (bs rest : List ℕ) (r : BitReader) (q : ℕ × BitReader)
    → length bs < 32
    → AreBits bs
    → r.overrun ≡ false
    → q.0 ≡ length bs
    → remaining q.1 ≡ bs ++ rest
    → q.1.overrun ≡ r.overrun
    → Reads r ((2 ^ length bs - 1 + spelled bs) % 2 ^ 32) rest (ue_after q)
unfolding ue_after
ue_after-Reads bs rest r (n, p) short small alive same left flag =
    let got = u-Reads bs rest p small left in
    let fewer : leb 32 (length bs) ≡ false = lt→leb 32 (length bs) short in
    let ready : (leb 32 (length bs) || p.overrun) ≡ false =
      ap (λ (c : Bool). c || p.overrun) fewer ∙ (flag ∙ alive) in
    rw (same, ready)
      (record {
        value =
            ap (λ (v : ℕ). (2 ^ length bs - 1 + v) % 2 ^ 32) got.value
            ∙ sum_mod (2 ^ length bs - 1) (spelled bs);
        left = got.left;
        flagged = got.flagged ∙ flag;
      })

-- An unsigned Exp-Golomb code is read as its number: with k < 32 zeros, a one and k more bits next in
-- a reader that has not overrun, ue gives 2 ^ k - 1 plus the number that the k bits spell, modulo
-- 2 ^ 32, leaves exactly the bits after the code, and the reader has not overrun.
pub ue-Reads :
    (bs rest : List ℕ) (r : BitReader)
    → length bs < 32
    → AreBits bs
    → r.overrun ≡ false
    → remaining r ≡ zeros_then (length bs) (1 ∷ (bs ++ rest))
    → Reads r ((2 ^ length bs - 1 + spelled bs) % 2 ^ 32) rest (ue r)
unfolding ue
ue-Reads bs rest r short small alive e =
    let zeros = leading_zeros-Reads (length bs) 32 0 (bs ++ rest) r short alive e in
    ue_after-Reads bs rest r (leading_zeros_from 32 0 r) short small alive
      (zeros.value ∙ omega arith) zeros.left zeros.flagged
