-- ===== src/Core/ByteOrder/Skip.antt =====
-- Reads behind a first part of the buffer (include/rtmp_server/core/byte_order.hpp).
use rtmp_core.Base.{ℕ, suc, ◌+◌, ◌≡◌, List, [], ◌∷◌, ◌++◌, arith, length, get_or, ap, ◌∙◌}
use rtmp_core.Core.ByteOrder.{byte_at, read_u16_be, read_u24_be, read_u32_be, read_u32_le}

get_or-skip : (xs ys : List ℕ) (i : ℕ) → get_or (xs ++ ys) (length xs + i) 0 ≡ get_or ys i 0
get_or-skip [] ys i = ap (λ (k : ℕ). get_or ys k 0) (omega arith)
get_or-skip (x ∷ xs) ys i =
    let e : suc (length xs) + i ≡ suc (length xs + i) = omega arith in rw e (get_or-skip xs ys i)

pub byte_at-skip :
    (xs ys : List ℕ) (j i : ℕ) → j ≡ length xs + i → byte_at (xs ++ ys) j ≡ byte_at ys i
byte_at-skip xs ys j i e = ap (λ (k : ℕ). get_or (xs ++ ys) k 0) e ∙ get_or-skip xs ys i

pub read_u16_be-skip :
    (xs ys : List ℕ) (j i : ℕ) → j ≡ length xs + i → read_u16_be (xs ++ ys) j ≡ read_u16_be ys i
unfolding read_u16_be
read_u16_be-skip xs ys j i e =
    omega (arith, byte_at-skip xs ys j i e, byte_at-skip xs ys (j + 1) (i + 1) (omega arith))

pub read_u24_be-skip :
    (xs ys : List ℕ) (j i : ℕ) → j ≡ length xs + i → read_u24_be (xs ++ ys) j ≡ read_u24_be ys i
unfolding read_u24_be
read_u24_be-skip xs ys j i e = omega (
  arith,
  byte_at-skip xs ys j i e,
  byte_at-skip xs ys (j + 1) (i + 1) (omega arith),
  byte_at-skip xs ys (j + 2) (i + 2) (omega arith),
)

pub read_u32_be-skip :
    (xs ys : List ℕ) (j i : ℕ) → j ≡ length xs + i → read_u32_be (xs ++ ys) j ≡ read_u32_be ys i
unfolding read_u32_be
read_u32_be-skip xs ys j i e = omega (
  arith,
  byte_at-skip xs ys j i e,
  byte_at-skip xs ys (j + 1) (i + 1) (omega arith),
  byte_at-skip xs ys (j + 2) (i + 2) (omega arith),
  byte_at-skip xs ys (j + 3) (i + 3) (omega arith),
)

pub read_u32_le-skip :
    (xs ys : List ℕ) (j i : ℕ) → j ≡ length xs + i → read_u32_le (xs ++ ys) j ≡ read_u32_le ys i
unfolding read_u32_le
read_u32_le-skip xs ys j i e = omega (
  arith,
  byte_at-skip xs ys j i e,
  byte_at-skip xs ys (j + 1) (i + 1) (omega arith),
  byte_at-skip xs ys (j + 2) (i + 2) (omega arith),
  byte_at-skip xs ys (j + 3) (i + 3) (omega arith),
)
