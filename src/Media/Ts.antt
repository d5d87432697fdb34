-- ===== src/Media/Ts.antt =====
-- src/media/ts/ts_muxer.cpp. A function returns the bytes that it appends to `out`. Parts that the
-- source joins by `|` have no bit in common, so the sum is the same number; `x | 1` is the odd number
-- of the pair that x is in.
pub mod Demux
pub mod Packets
pub mod Received
pub mod Stream
pub mod Tables
pub mod Tests
use rtmp_core.Base.{
  ℕ, zero, suc, ◌+◌, ◌-◌, ◌*◌, ◌/◌, ◌%◌, ◌^◌, min, Bool, true, false, not, ◌&&◌, ◌||◌, List, [],
  ◌∷◌, ◌++◌, length, take, drop, ltb, leb, ◌==◌, if◌then◌else◌,
}
use rtmp_core.Core.Error.{Error, message_too_large, protocol}
use rtmp_core.Core.Result.{Result, err, ok}
use rtmp_core.Core.ByteOrder.{write_u16_be, write_u32_be}
use rtmp_core.Media.Nals.{malformed}

abbrev pub packet_size : ℕ
packet_size = 188

abbrev pub sync_byte : ℕ
sync_byte = 0x47

pub record TsMuxerConfig : Type 0 where
  pub pmt_pid : ℕ
  pub video_pid : ℕ
  pub audio_pid : ℕ
  pub program_number : ℕ

pub record TsMuxer : Type 0 where
  pub config : TsMuxerConfig
  pub video_cc : ℕ
  pub audio_cc : ℕ
  pub pat_cc : ℕ
  pub pmt_cc : ℕ

abbrev pub reset_continuity : TsMuxer → TsMuxer
reset_continuity m = record m { video_cc = 0; audio_cc = 0; pat_cc = 0; pmt_cc = 0 }

-- The low 33 bits of the value.
unfoldable pub push_timestamp : ℕ → ℕ → List ℕ
push_timestamp prefix value =
    let v = value % 2 ^ 33 in
    ((prefix * 16 + v / 2 ^ 30 % 8) / 2 * 2 % 256 + 1)
    ∷ (write_u16_be (v / 2 ^ 15 % 2 ^ 15 * 2 + 1) ++ write_u16_be (v % 2 ^ 15 * 2 + 1))

-- Stuffing bytes.
abbrev pub fill : ℕ → List ℕ
fill zero = []
fill (suc n) = 0xFF ∷ fill n

-- The first four bytes.
abbrev pub packet_header : Bool → ℕ → Bool → ℕ → List ℕ
packet_header first pid adapted cc =
    sync_byte
    ∷ ((if first then 0x40 else 0) + pid / 2 ^ 8 % 32)
    ∷ (pid % 256)
    ∷ ((if adapted then 0x30 else 0x10) + cc % 16)
    ∷ []

abbrev pub next_cc : ℕ → ℕ
next_cc cc = (cc + 1) % 16

-- What the packets hold besides the payload.
pub record Marks : Type 0 where
  pub first : Bool
  pub with_pcr : Bool
  pub pcr_90k : ℕ
  pub random_access : Bool

-- The length of the adaptation field without stuffing, the length byte included.
unfoldable pub wanted : Marks → ℕ
wanted k = if k.first && (k.with_pcr || k.random_access) then (if k.with_pcr then 8 else 2) else 0

-- With stuffing for a payload that does not fill the packet.
unfoldable pub adaptation_length : Marks → ℕ → ℕ
adaptation_length k remaining =
    let available = packet_size - 4 - wanted k in
    if ltb remaining available then wanted k + (available - remaining) else wanted k

unfoldable pub stuffing : Marks → ℕ → ℕ
stuffing k remaining =
    let gap = packet_size - 4 - wanted k - remaining in
    if ltb remaining (packet_size - 4 - wanted k)
    then (if wanted k == 0 then gap - 2 else gap)
    else 0

abbrev pub clock : ℕ → List ℕ
clock pcr_90k =
    let base = pcr_90k % 2 ^ 33 in
    (base / 2 ^ 25 % 256)
    ∷ (base / 2 ^ 17 % 256)
    ∷ (base / 2 ^ 9 % 256)
    ∷ (base / 2 % 256)
    ∷ (base % 2 * 2 ^ 7 + 0x7E)
    ∷ 0
    ∷ []

unfoldable pub clock_field : Marks → List ℕ
clock_field k = if k.first && k.with_pcr then clock k.pcr_90k else []

abbrev pub flags : Marks → ℕ
flags k =
    (if k.first && k.random_access then 0x40 else 0) + (if k.first && k.with_pcr then 0x10 else 0)

unfoldable pub adaptation_field : Marks → ℕ → List ℕ
adaptation_field k remaining =
    let len = adaptation_length k remaining in
    if len == 0
    then []
    else if len == 1
    then 0 ∷ []
    else (len - 1) ∷ (flags k ∷ (clock_field k ++ fill (stuffing k remaining)))

abbrev pub payload_bytes : Marks → ℕ → ℕ
payload_bytes k remaining = min remaining (packet_size - 4 - adaptation_length k remaining)

-- One packet for what is left of the payload.
unfoldable pub pes_packet : ℕ → ℕ → Marks → List ℕ → List ℕ
pes_packet pid cc k rest =
    let remaining = length rest in
    let bytes =
      packet_header k.first pid (ltb 0 (adaptation_length k remaining)) cc
      ++ (adaptation_field k remaining ++ take (payload_bytes k remaining) rest) in
    bytes ++ fill (packet_size - length bytes)

abbrev pub later : Marks → Marks
later k = record k { first = false }

-- The packets, and the counter after them. A packet takes a byte of the payload at least.
unfoldable pub pes_packets : ℕ → ℕ → ℕ → Marks → List ℕ → List (List ℕ) × ℕ
pes_packets zero pid cc k rest = ([], cc)
pes_packets (suc fuel) pid cc k [] = ([], cc)
pes_packets (suc fuel) pid cc k (b ∷ bs) =
    let rest = b ∷ bs in
    let (packets, cc') =
      pes_packets fuel pid (next_cc cc) (later k) (drop (payload_bytes k (length rest)) rest) in
    (pes_packet pid cc k rest ∷ packets, cc')

abbrev pub joined : List (List ℕ) → List ℕ
joined [] = []
joined (p ∷ ps) = p ++ joined ps

unfoldable pub write_pes_packets : ℕ → ℕ → List ℕ → Bool → ℕ → Bool → List ℕ × ℕ
write_pes_packets pid cc payload with_pcr pcr_90k random_access =
    let k : Marks = record {
      first = true;
      with_pcr = with_pcr;
      pcr_90k = pcr_90k;
      random_access = random_access;
    } in
    let (packets, cc') = pes_packets (length payload) pid cc k payload in (joined packets, cc')

abbrev pub video_pes : List ℕ → ℕ → ℕ → List ℕ
video_pes annexb pts_90k dts_90k =
    let with_dts = not (dts_90k == pts_90k) in
    let header_data_len = (if with_dts then 10 else 5) in
    let pes_payload_len = length annexb + 3 + header_data_len in
    (0 ∷ 0 ∷ 1 ∷ 0xE0 ∷ [])
    ++ (write_u16_be (if ltb 0xFFFF pes_payload_len then 0 else pes_payload_len)
        ++ ((0x80 ∷ (if with_dts then 0xC0 else 0x80) ∷ header_data_len ∷ [])
            ++ (push_timestamp (if with_dts then 3 else 2) pts_90k
                ++ ((if with_dts then push_timestamp 1 dts_90k else []) ++ annexb))))

unfoldable pub write_video :
    List ℕ → ℕ → ℕ → Bool → TsMuxer → Result (Unit {0}) × (List ℕ × TsMuxer)
write_video annexb pts_90k dts_90k keyframe m =
    let (bytes, cc) =
      write_pes_packets m.config.video_pid m.video_cc (video_pes annexb pts_90k dts_90k) keyframe
        dts_90k keyframe in
    if length annexb == 0
    then (err malformed, ([], m))
    else (ok tt, (bytes, record m { video_cc = cc }))

abbrev pub audio_pes : List ℕ → ℕ → List ℕ
audio_pes adts pts_90k =
    (0 ∷ 0 ∷ 1 ∷ 0xC0 ∷ [])
    ++ (write_u16_be (length adts + 3 + 5)
        ++ ((0x80 ∷ 0x80 ∷ 5 ∷ []) ++ (push_timestamp 2 pts_90k ++ adts)))

unfoldable pub write_audio : List ℕ → ℕ → TsMuxer → Result (Unit {0}) × (List ℕ × TsMuxer)
write_audio adts pts_90k m =
    let (bytes, cc) =
      write_pes_packets m.config.audio_pid m.audio_cc (audio_pes adts pts_90k) false 0 false in
    if length adts == 0
    then (err malformed, ([], m))
    else if ltb 0xFFFF (length adts + 3 + 5)
    then (err (record { code = message_too_large; category = protocol }), ([], m))
    else (ok tt, (bytes, record m { audio_cc = cc }))
