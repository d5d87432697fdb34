-- ===== src/Core/ByteReader.antt =====
-- include/rtmp_server/core/byte_reader.hpp: the cursor over a span.
pub mod Pieces
pub mod Tests
use rtmp_core.Base.{
  ℕ, ◌+◌, ◌-◌, Bool, true, false, leb, if◌then◌else◌, Option, none, some, List, [], ◌∷◌, length,
  take, drop,
}
use rtmp_core.Core.ByteOrder.{byte_at, read_u16_be, read_u24_be, read_u32_be}

pub record ByteReader : Type 0 where
  pub data_ : List ℕ
  pub position : ℕ

abbrev pub remaining_bytes : ByteReader → ℕ
remaining_bytes r = length r.data_ - r.position

abbrev pub has_remaining : ℕ → ByteReader → Bool
has_remaining n r = leb n (remaining_bytes r)

abbrev pub advanced : ℕ → ByteReader → ByteReader
advanced n r = record r { position = r.position + n }

-- The reads: a value and the cursor after it, or nothing, and the cursor stays.
abbrev pub when_there : ℕ → ℕ → ByteReader → Option ℕ × ByteReader
when_there n value r = if has_remaining n r then (some value, advanced n r) else (none, r)

unfoldable pub next_u8 : ByteReader → Option ℕ × ByteReader
next_u8 r = when_there 1 (byte_at r.data_ r.position) r

unfoldable pub next_u16_be : ByteReader → Option ℕ × ByteReader
next_u16_be r = when_there 2 (read_u16_be r.data_ r.position) r

unfoldable pub next_u24_be : ByteReader → Option ℕ × ByteReader
next_u24_be r = when_there 3 (read_u24_be r.data_ r.position) r

unfoldable pub next_u32_be : ByteReader → Option ℕ × ByteReader
next_u32_be r = when_there 4 (read_u32_be r.data_ r.position) r

unfoldable pub read_bytes : ℕ → ByteReader → Option (List ℕ) × ByteReader
read_bytes n r =
    if has_remaining n r then (some (take n (drop r.position r.data_)), advanced n r) else (none, r)

unfoldable pub skip_bytes : ℕ → ByteReader → Bool × ByteReader
skip_bytes n r = if has_remaining n r then (true, advanced n r) else (false, r)
