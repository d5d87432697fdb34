-- ===== src/BitReader.antt =====
-- include/rtmp_server/media/bitstream/bit_reader.hpp: the reader of parameter sets, bit by bit.
pub mod Stream
pub mod Codes
pub mod Tests
use rtmp_core.Base.{
  ℕ, zero, suc, ◌+◌, ◌-◌, ◌*◌, ◌/◌, ◌%◌, ◌^◌, Bool, true, false, not, ◌&&◌, ◌||◌, leb, ◌==◌,
  if◌then◌else◌, List, [], ◌∷◌, length,
}
use rtmp_core.Core.ByteOrder.{byte_at}

-- `run` counts the zero bytes just before.
unfoldable pub unescape_from : ℕ → List ℕ → List ℕ
unescape_from run [] = []
unescape_from run (b ∷ bs) =
    let skipped = unescape_from 0 bs in
    let kept = unescape_from (if b == 0 then run + 1 else 0) bs in
    if leb 2 run && (b == 3) then skipped else b ∷ kept

unfoldable pub unescape_rbsp : List ℕ → List ℕ
unescape_rbsp nal = unescape_from 0 nal

pub record BitReader : Type 0 where
  pub data_ : List ℕ
  pub position : ℕ
  pub overrun : Bool

abbrev pub bit_reader : List ℕ → BitReader
bit_reader data_ = record { data_ = data_; position = 0; overrun = false }

unfoldable pub bits_left : BitReader → ℕ
bits_left r =
    let total = length r.data_ * 8 in if leb total r.position then 0 else total - r.position

abbrev pub overran : BitReader → BitReader
overran r = record r { overrun = true }

unfoldable pub bit : BitReader → ℕ × BitReader
bit r = if leb (length r.data_ * 8) r.position then (0, overran r) else (
  byte_at r.data_ (r.position / 8) / 2 ^ (7 - r.position % 8) % 2,
  record r { position = r.position + 1 },
)

-- The loop of u, with the value so far.
unfoldable pub u_from : ℕ → ℕ → BitReader → ℕ × BitReader
u_from value zero r = (value, r)
u_from value (suc count) r = u_from (value * 2 % 2 ^ 32 + (bit r).0) count (bit r).1

unfoldable pub u : ℕ → BitReader → ℕ × BitReader
u count r = u_from 0 count r

unfoldable pub flag : BitReader → Bool × BitReader
flag r = (not ((bit r).0 == 0), (bit r).1)

-- `while (leading_zeros < 32 && bit() == 0 && !overrun_) ++leading_zeros`, `left` rounds before 32.
unfoldable pub leading_zeros_from : ℕ → ℕ → BitReader → ℕ × BitReader
leading_zeros_from zero n r = (n, r)
leading_zeros_from (suc left) n r =
    let (b, r') = bit r in
    let more = leading_zeros_from left (n + 1) r' in
    if (b == 0) && not r'.overrun then more else (n, r')

unfoldable pub ue_after : ℕ × BitReader → ℕ × BitReader
ue_after (n, r) =
    if leb 32 n || r.overrun then (0, overran r) else ((2 ^ n - 1 + (u n r).0) % 2 ^ 32, (u n r).1)

unfoldable pub ue : BitReader → ℕ × BitReader
ue r = ue_after (leading_zeros_from 32 0 r)

unfoldable pub skip : ℕ → BitReader → BitReader
skip zero r = r
skip (suc count) r = skip count (bit r).1

pub data ℤ : Type 0 where
  pos : ℕ → ℤ
  negsuc : ℕ → ℤ

abbrev negate : ℕ → ℤ
negate zero = pos zero
negate (suc n) = negsuc n

unfoldable pub se : BitReader → ℤ × BitReader
se r =
    let (code, r') = ue r in
    let magnitude = (code + 1) % 2 ^ 32 / 2 in
    if code % 2 == 0 then (negate magnitude, r') else (pos magnitude, r')
