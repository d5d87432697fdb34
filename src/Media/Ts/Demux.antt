-- ===== src/Media/Ts/Demux.antt =====
-- What src/media/ts/ts_demuxer.cpp reads of a packet and of the head of a PES packet.
use rtmp_core.Base.{
  ℕ, zero, suc, ◌+◌, ◌*◌, ◌/◌, ◌%◌, ◌^◌, ◌<◌, ◌≤◌, ◌≡◌, refl, ap, ◌∙◌, inl, inr, Bool, true, false,
  not, ◌&&◌, ◌||◌, List, [], ◌∷◌, ◌++◌, arith, length, drop, take, ltb, leb, ◌==◌, if◌then◌else◌,
  Bool-cases,
}
use rtmp_core.Core.ByteOrder.{byte_at, write_u16_be}
use rtmp_core.Media.Ts.{packet_size, sync_byte, push_timestamp, video_pes, audio_pes}

-- The bytes behind the header and the adaptation field.
unfoldable pub packet_payload : List ℕ → List ℕ
packet_payload packet =
    let afc = byte_at packet 3 / 2 ^ 4 % 4 in
    let payload_offset = (if afc == 3 then 5 + byte_at packet 4 else 4) in
    if afc == 2
    then []
    else if leb (length packet) payload_offset
    then []
    else drop payload_offset packet

-- The packets of the bytes; a byte that is not a sync byte is passed over.
unfoldable pub feed_packets : ℕ → List ℕ → List (List ℕ)
feed_packets zero bytes = []
feed_packets (suc fuel) bytes =
    let aligned = byte_at bytes 0 == sync_byte in
    let rest = feed_packets fuel (drop (if aligned then packet_size else 1) bytes) in
    if ltb (length bytes) packet_size
    then []
    else if aligned
    then take packet_size bytes ∷ rest
    else rest

unfoldable pub read_timestamp : List ℕ → ℕ
read_timestamp p =
    byte_at p 0 / 2 % 8 * 2 ^ 30
    + (byte_at p 1 * 2 ^ 7 + byte_at p 2 / 2) * 2 ^ 15
    + (byte_at p 3 * 2 ^ 7 + byte_at p 4 / 2)

pub record PesAssembly : Type 0 where
  pub «data» : List ℕ
  pub pts_90k : ℕ
  pub dts_90k : ℕ
  pub has_data : Bool

-- Whether the payload starts with 00 00 01, and holds what is read of it.
abbrev pub starts_pes : List ℕ → Bool
starts_pes payload = not (
    ltb (length payload) 9
    || not (byte_at payload 0 == 0)
    || not (byte_at payload 1 == 0)
    || not (byte_at payload 2 == 1))

unfoldable pub begin_pes : PesAssembly → List ℕ → PesAssembly
begin_pes state payload =
    let pts_dts_flags = byte_at payload 7 / 2 ^ 6 % 4 in
    let es_offset = 9 + byte_at payload 8 in
    let with_pts = leb 2 pts_dts_flags && leb 14 (length payload) in
    let with_dts = pts_dts_flags == 3 && leb 19 (length payload) in
    let pts = (if with_pts then read_timestamp (drop 9 payload) else 0) in
    let dts = (if with_pts && with_dts then read_timestamp (drop 14 payload) else pts) in
    if not (starts_pes payload) || ltb (length payload) es_offset
    then record state { has_data = false }
    else record { «data» = drop es_offset payload; pts_90k = pts; dts_90k = dts; has_data = true }

-- What a handler is called with. The audio handler takes the data and the first time alone; the last
-- argument of the video handler, whether the unit is a keyframe, is left out.
pub record Access : Type 0 where
  pub «data» : List ℕ
  pub pts_90k : ℕ
  pub dts_90k : ℕ

unfoldable pub finish_pes : PesAssembly → PesAssembly × List Access
finish_pes state =
    if not state.has_data || length state.«data» == 0
    then (record state { has_data = false }, [])
    else (
      record state { «data» = []; has_data = false },
      record { «data» = state.«data»; pts_90k = state.pts_90k; dts_90k = state.dts_90k } ∷ [],
    )

-- The state of one stream, and the calls of its handler so far.
abbrev pub Reassembly : Type 0
Reassembly = PesAssembly × List Access

-- A packet for the stream with this identifier, which is not one of a table.
unfoldable pub process_packet : ℕ → List ℕ → Reassembly → Reassembly
process_packet stream_pid packet (state, given) =
    let pusi = byte_at packet 1 / 2 ^ 6 % 2 == 1 in
    let pid = byte_at packet 1 % 2 ^ 5 * 2 ^ 8 + byte_at packet 2 in
    let payload = packet_payload packet in
    let (closed, accesses) = finish_pes state in
    if length payload == 0 || not (pid == stream_pid)
    then (state, given)
    else if pusi
    then (begin_pes closed payload, given ++ accesses)
    else if state.has_data
    then (record state { «data» = state.«data» ++ payload }, given)
    else (state, given)

abbrev pub process_all : ℕ → List (List ℕ) → Reassembly → Reassembly
process_all stream_pid [] s = s
process_all stream_pid (p ∷ ps) s = process_all stream_pid ps (process_packet stream_pid p s)

-- The layout takes the top three bits one place higher.
read_timestamp-push_timestamp :
    (prefix value : ℕ) (rest : List ℕ)
    → prefix < 16
    → value < 2 ^ 30
    → read_timestamp (push_timestamp prefix value ++ rest) ≡ value
unfolding read_timestamp push_timestamp write_u16_be
read_timestamp-push_timestamp prefix value rest low small = omega arith

-- A head with the presentation time alone.
begin_pes-pts :
    (state : PesAssembly) (id b4 b5 pts : ℕ) (es : List ℕ)
    → pts < 2 ^ 30
    → begin_pes state (0 ∷ 0 ∷ 1 ∷ id ∷ b4 ∷ b5 ∷ 0x80 ∷ 0x80 ∷ 5 ∷ (push_timestamp 2 pts ++ es))
      ≡ record { «data» = es; pts_90k = pts; dts_90k = pts; has_data = true }
unfolding begin_pes push_timestamp write_u16_be
begin_pes-pts state id b4 b5 pts es small =
    let payload = 0 ∷ 0 ∷ 1 ∷ id ∷ b4 ∷ b5 ∷ 0x80 ∷ 0x80 ∷ 5 ∷ (push_timestamp 2 pts ++ es) in
    let whole : ltb (length payload) 9 ≡ false = ground arith in
    let inside : ltb (length payload) 14 ≡ false = ground arith in
    let room : leb 14 (length payload) ≡ true = ground arith in
    rw (whole, inside, room, read_timestamp-push_timestamp 2 pts es (omega arith) small) refl

-- A head with both times.
begin_pes-dts :
    (state : PesAssembly) (id b4 b5 pts dts : ℕ) (es : List ℕ)
    → pts < 2 ^ 30
    → dts < 2 ^ 30
    → begin_pes state (
        0
        ∷ 0
        ∷ 1
        ∷ id
        ∷ b4
        ∷ b5
        ∷ 0x80
        ∷ 0xC0
        ∷ 10
        ∷ (push_timestamp 3 pts ++ (push_timestamp 1 dts ++ es)))
      ≡ record { «data» = es; pts_90k = pts; dts_90k = dts; has_data = true }
unfolding begin_pes push_timestamp write_u16_be
begin_pes-dts state id b4 b5 pts dts es small small' =
    let behind = push_timestamp 1 dts ++ es in
    let payload = 0 ∷ 0 ∷ 1 ∷ id ∷ b4 ∷ b5 ∷ 0x80 ∷ 0xC0 ∷ 10 ∷ (push_timestamp 3 pts ++ behind) in
    let whole : ltb (length payload) 9 ≡ false = ground arith in
    let inside : ltb (length payload) 19 ≡ false = ground arith in
    let room : leb 14 (length payload) ≡ true = ground arith in
    let room' : leb 19 (length payload) ≡ true = ground arith in
    rw
      (
        whole,
        inside,
        room,
        room',
        read_timestamp-push_timestamp 3 pts behind (omega arith) small,
        read_timestamp-push_timestamp 1 dts es (omega arith) small',
      )
      refl

-- The head of a PES packet, and what begin_pes makes of it with any first part of the unit.
pub record Opens (pes es : List ℕ) (pts dts : ℕ) : Type 0 where
  pub head : List ℕ
  pub split : pes ≡ head ++ es
  pub short : length head ≤ 19
  pub reads :
      (state : PesAssembly) (part : List ℕ)
      → begin_pes state (head ++ part)
        ≡ record { «data» = part; pts_90k = pts; dts_90k = dts; has_data = true }

abbrev pts_head : ℕ → ℕ → ℕ → List ℕ
pts_head id n pts =
    0 ∷ 0 ∷ 1 ∷ id ∷ (n / 2 ^ 8 % 256) ∷ (n % 256) ∷ 0x80 ∷ 0x80 ∷ 5 ∷ push_timestamp 2 pts

abbrev dts_head : ℕ → ℕ → ℕ → ℕ → List ℕ
dts_head id n pts dts =
    0
    ∷ 0
    ∷ 1
    ∷ id
    ∷ (n / 2 ^ 8 % 256)
    ∷ (n % 256)
    ∷ 0x80
    ∷ 0xC0
    ∷ 10
    ∷ (push_timestamp 3 pts ++ push_timestamp 1 dts)

pub audio_pes-Opens :
    (adts : List ℕ) (pts_90k : ℕ)
    → pts_90k < 2 ^ 30
    → Opens (audio_pes adts pts_90k) adts pts_90k pts_90k
unfolding write_u16_be push_timestamp
audio_pes-Opens adts pts small =
    let n = length adts + 3 + 5 in
    record {
      head = pts_head 0xC0 n pts;
      split = refl;
      short = omega arith;
      reads = λ state part. begin_pes-pts state 0xC0 (n / 2 ^ 8 % 256) (n % 256) pts part small;
    }

video_pes-Opens_pts :
    (annexb : List ℕ) (pts dts : ℕ)
    → (dts == pts) ≡ true
    → pts < 2 ^ 30
    → Opens (video_pes annexb pts dts) annexb pts dts
unfolding write_u16_be push_timestamp
video_pes-Opens_pts annexb pts dts e small =
    let n = if ltb 0xFFFF (length annexb + 3 + 5) then 0 else length annexb + 3 + 5 in
    let same : pts ≡ dts = ground arith in
    record {
      head = pts_head 0xE0 n pts;
      split = rw e refl;
      short = omega arith;
      reads = λ state part.
          begin_pes-pts state 0xE0 (n / 2 ^ 8 % 256) (n % 256) pts part small
          ∙ ap (λ d. record { «data» = part; pts_90k = pts; dts_90k = d; has_data = true }) same;
    }

video_pes-Opens_dts :
    (annexb : List ℕ) (pts dts : ℕ)
    → (dts == pts) ≡ false
    → pts < 2 ^ 30
    → dts < 2 ^ 30
    → Opens (video_pes annexb pts dts) annexb pts dts
unfolding write_u16_be push_timestamp
video_pes-Opens_dts annexb pts dts e small small' =
    let n = if ltb 0xFFFF (length annexb + 3 + 10) then 0 else length annexb + 3 + 10 in
    record {
      head = dts_head 0xE0 n pts dts;
      split = rw e refl;
      short = omega arith;
      reads = λ state part.
          begin_pes-dts state 0xE0 (n / 2 ^ 8 % 256) (n % 256) pts dts part small small';
    }

pub video_pes-Opens :
    (annexb : List ℕ) (pts dts : ℕ)
    → pts < 2 ^ 30
    → dts < 2 ^ 30
    → Opens (video_pes annexb pts dts) annexb pts dts
video_pes-Opens annexb pts dts small small' = elim (Bool-cases (dts == pts)) [
  | inl e ↦ video_pes-Opens_pts annexb pts dts e small
  | inr e ↦ video_pes-Opens_dts annexb pts dts e small small'
]
