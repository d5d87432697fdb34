-- ===== src/Core/ByteOrder.antt =====
-- include/rtmp_server/core/byte_order.hpp, with the readers at an offset that chunk_decoder.cpp and
-- amf0_decoder.cpp define over it. A byte is a number; the parts that the source joins by `|` have
-- no bit in common, so the sum is the same number.
pub mod Skip
use rtmp_core.Base.{
  ℕ, ◌+◌, ◌*◌, ◌/◌, ◌%◌, ◌^◌, ◌≤◌, ◌<◌, ◌≡◌, List, [], ◌∷◌, ◌++◌, arith, length, get_or,
  get_or-append,
}

abbrev pub byte_at : List ℕ → ℕ → ℕ
byte_at buf i = get_or buf i 0

unfoldable pub read_u16_be : List ℕ → ℕ → ℕ
read_u16_be buf o = byte_at buf o * 2 ^ 8 + byte_at buf (o + 1)

unfoldable pub read_u24_be : List ℕ → ℕ → ℕ
read_u24_be buf o = byte_at buf o * 2 ^ 16 + byte_at buf (o + 1) * 2 ^ 8 + byte_at buf (o + 2)

unfoldable pub read_u32_be : List ℕ → ℕ → ℕ
read_u32_be buf o =
    byte_at buf o * 2 ^ 24
    + byte_at buf (o + 1) * 2 ^ 16
    + byte_at buf (o + 2) * 2 ^ 8
    + byte_at buf (o + 3)

unfoldable pub read_u32_le : List ℕ → ℕ → ℕ
read_u32_le buf o =
    byte_at buf o
    + byte_at buf (o + 1) * 2 ^ 8
    + byte_at buf (o + 2) * 2 ^ 16
    + byte_at buf (o + 3) * 2 ^ 24

-- `(value >> k) & 0xFF` of each byte, from the top.
unfoldable pub write_u16_be : ℕ → List ℕ
write_u16_be v = (v / 2 ^ 8 % 256) ∷ (v % 256) ∷ []

unfoldable pub write_u24_be : ℕ → List ℕ
write_u24_be v = (v / 2 ^ 16 % 256) ∷ (v / 2 ^ 8 % 256) ∷ (v % 256) ∷ []

unfoldable pub write_u32_be : ℕ → List ℕ
write_u32_be v = (v / 2 ^ 24 % 256) ∷ (v / 2 ^ 16 % 256) ∷ (v / 2 ^ 8 % 256) ∷ (v % 256) ∷ []

unfoldable pub write_u32_le : ℕ → List ℕ
write_u32_le v = (v % 256) ∷ (v / 2 ^ 8 % 256) ∷ (v / 2 ^ 16 % 256) ∷ (v / 2 ^ 24 % 256) ∷ []

-- A read inside the first list does not see what is appended.
pub read_u16_be-append :
    (xs ys : List ℕ) (o : ℕ) → o + 2 ≤ length xs → read_u16_be (xs ++ ys) o ≡ read_u16_be xs o
unfolding read_u16_be
read_u16_be-append xs ys o h =
    omega
      (arith, get_or-append xs ys o 0 (omega arith), get_or-append xs ys (o + 1) 0 (omega arith))

pub read_u24_be-append :
    (xs ys : List ℕ) (o : ℕ) → o + 3 ≤ length xs → read_u24_be (xs ++ ys) o ≡ read_u24_be xs o
unfolding read_u24_be
read_u24_be-append xs ys o h = omega (
  arith,
  get_or-append xs ys o 0 (omega arith),
  get_or-append xs ys (o + 1) 0 (omega arith),
  get_or-append xs ys (o + 2) 0 (omega arith),
)

pub read_u32_be-append :
    (xs ys : List ℕ) (o : ℕ) → o + 4 ≤ length xs → read_u32_be (xs ++ ys) o ≡ read_u32_be xs o
unfolding read_u32_be
read_u32_be-append xs ys o h = omega (
  arith,
  get_or-append xs ys o 0 (omega arith),
  get_or-append xs ys (o + 1) 0 (omega arith),
  get_or-append xs ys (o + 2) 0 (omega arith),
  get_or-append xs ys (o + 3) 0 (omega arith),
)

pub read_u32_le-append :
    (xs ys : List ℕ) (o : ℕ) → o + 4 ≤ length xs → read_u32_le (xs ++ ys) o ≡ read_u32_le xs o
unfolding read_u32_le
read_u32_le-append xs ys o h = omega (
  arith,
  get_or-append xs ys o 0 (omega arith),
  get_or-append xs ys (o + 1) 0 (omega arith),
  get_or-append xs ys (o + 2) 0 (omega arith),
  get_or-append xs ys (o + 3) 0 (omega arith),
)

-- What was written at the front is read back there.
pub read-write_u16_be :
    (v : ℕ) (rest : List ℕ) → v < 2 ^ 16 → read_u16_be (write_u16_be v ++ rest) 0 ≡ v
unfolding read_u16_be write_u16_be
read-write_u16_be v rest h = omega arith

pub read-write_u24_be :
    (v : ℕ) (rest : List ℕ) → v < 2 ^ 24 → read_u24_be (write_u24_be v ++ rest) 0 ≡ v
unfolding read_u24_be write_u24_be
read-write_u24_be v rest h = omega arith

pub read-write_u32_be :
    (v : ℕ) (rest : List ℕ) → v < 2 ^ 32 → read_u32_be (write_u32_be v ++ rest) 0 ≡ v
unfolding read_u32_be write_u32_be
read-write_u32_be v rest h = omega arith

pub read-write_u32_le :
    (v : ℕ) (rest : List ℕ) → v < 2 ^ 32 → read_u32_le (write_u32_le v ++ rest) 0 ≡ v
unfolding read_u32_le write_u32_le
read-write_u32_le v rest h = omega arith
