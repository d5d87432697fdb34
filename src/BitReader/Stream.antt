-- ===== src/BitReader/Stream.antt =====
-- A reader as the list of the bits that are left (bit_reader.hpp).
use rtmp_core.Base.{
  ℕ, zero, suc, ◌+◌, ◌-◌, ◌*◌, ◌/◌, ◌%◌, ◌^◌, ◌<◌, ◌≡◌, refl, sym, ap, ◌∙◌, inl, inr, leb, leb→lt,
  leb→le, List, [], ◌∷◌, length, get_or, drop, length-drop, arith, Bool-cases,
}
use rtmp_core.Core.ByteOrder.{byte_at}
use rtmp_core.BitReader.{BitReader, bit}

-- The bits of the bytes, the highest of each byte first.
unfoldable pub bits_of : List ℕ → List ℕ
bits_of [] = []
bits_of (b ∷ bs) =
    (b / 2 ^ 7 % 2)
    ∷ (b / 2 ^ 6 % 2)
    ∷ (b / 2 ^ 5 % 2)
    ∷ (b / 2 ^ 4 % 2)
    ∷ (b / 2 ^ 3 % 2)
    ∷ (b / 2 ^ 2 % 2)
    ∷ (b / 2 ^ 1 % 2)
    ∷ (b / 2 ^ 0 % 2)
    ∷ bits_of bs

unfoldable pub remaining : BitReader → List ℕ
remaining r = drop r.position (bits_of r.data_)

pub length-bits_of : (bs : List ℕ) → length (bits_of bs) ≡ length bs * 8
unfolding bits_of
length-bits_of [] = omega arith
length-bits_of (b ∷ bs) = omega (arith, length-bits_of bs)

bit_at : (bs : List ℕ) (p : ℕ) → get_or (bits_of bs) p 0 ≡ byte_at bs (p / 8) / 2 ^ (7 - p % 8) % 2
unfolding bits_of
bit_at [] p = omega arith
bit_at (b ∷ bs) zero = refl
bit_at (b ∷ bs) (suc zero) = refl
bit_at (b ∷ bs) (suc (suc zero)) = refl
bit_at (b ∷ bs) (suc (suc (suc zero))) = refl
bit_at (b ∷ bs) (suc (suc (suc (suc zero)))) = refl
bit_at (b ∷ bs) (suc (suc (suc (suc (suc zero))))) = refl
bit_at (b ∷ bs) (suc (suc (suc (suc (suc (suc zero)))))) = refl
bit_at (b ∷ bs) (suc (suc (suc (suc (suc (suc (suc zero))))))) = refl
bit_at (b ∷ bs) (suc (suc (suc (suc (suc (suc (suc (suc p)))))))) =
    let p8 = suc (suc (suc (suc (suc (suc (suc (suc p))))))) in
    let q : p8 / 8 ≡ suc (p / 8) = omega arith in
    let m : p8 % 8 ≡ p % 8 = omega arith in rw (q, m) (bit_at bs p)

drop_cons : (p : ℕ) (xs : List ℕ) → p < length xs → drop p xs ≡ get_or xs p 0 ∷ drop (suc p) xs
drop_cons zero [] h = absurd (omega arith)
drop_cons zero (x ∷ xs) h = refl
drop_cons (suc p) [] h = absurd (omega arith)
drop_cons (suc p) (x ∷ xs) h = drop_cons p xs (omega arith)

-- `bit` takes the next bit, and reports the end.
pub bit-next :
    (r : BitReader) (b : ℕ) (bs : List ℕ)
    → remaining r ≡ b ∷ bs
    → ((bit r).0 ≡ b) × (remaining (bit r).1 ≡ bs) × ((bit r).1.overrun ≡ r.overrun)
unfolding bit remaining
bit-next r b bs e = elim (Bool-cases (leb (length r.data_ * 8) r.position)) [
  | inl over ↦ absurd (
      omega (
        arith,
        leb→le (length r.data_ * 8) r.position over,
        length-bits_of r.data_,
        length-drop r.position (bits_of r.data_),
        ap length e,
      ))
  | inr fine ↦
      let inside : r.position < length (bits_of r.data_) =
        omega (arith, leb→lt (length r.data_ * 8) r.position fine, length-bits_of r.data_) in
      let next : get_or (bits_of r.data_) r.position 0 ∷ drop (suc r.position) (bits_of r.data_)
          ≡ b ∷ bs =
        sym (drop_cons r.position (bits_of r.data_) inside) ∙ e in
      let one : r.position + 1 ≡ suc r.position = omega arith in
      rw (fine, bit)
        (
          sym (bit_at r.data_ r.position) ∙ ap (λ (xs : List ℕ). get_or xs 0 0) next,
          ap (λ (n : ℕ). drop n (bits_of r.data_)) one ∙ ap (λ (xs : List ℕ). drop 1 xs) next,
          refl,
        )
]
