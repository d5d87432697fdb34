-- ===== src/Media/Ts/Tests.antt =====
-- Tests of the transport stream (src/media/ts/ts_muxer.cpp, src/media/ts/ts_demuxer.cpp).
use rtmp_core.Base.{ℕ, ◌≡◌, ◌+◌, ◌%◌, ◌^◌, refl, true, List, [], ◌∷◌, length, arith}
use rtmp_core.Core.Result.{ok}
use rtmp_core.Media.Ts.{TsMuxer, write_pes_packets, write_video, write_audio, push_timestamp, fill}
use rtmp_core.Media.Ts.Tables.{mpeg_crc32, crc_from, crc_bits}
use rtmp_core.Media.Ts.Demux.{feed_packets, PesAssembly, read_timestamp}
use rtmp_core.Media.Ts.Packets.{payloads, Packets}
use rtmp_core.Media.Ts.Stream.{feed_packets-write_pes_packets}
use rtmp_core.Media.Ts.Received.{Received, process_all-write_video, process_all-write_audio}
use rtmp_core.Core.ByteOrder.{write_u16_be}

abbrev muxer : TsMuxer
muxer = record {
  config = record { pmt_pid = 0x1000; video_pid = 0x100; audio_pid = 0x101; program_number = 1 };
  video_cc = 15;
  audio_cc = 3;
  pat_cc = 0;
  pmt_cc = 0;
}

abbrev unit : List ℕ
unit = 0 ∷ 0 ∷ 1 ∷ 0x65 ∷ 0x88 ∷ []

abbrev long : List ℕ
long = fill 300

-- The check value of CRC-32/MPEG-2 for the digits from 1 to 9.
mpeg_crc32_digits :
    mpeg_crc32 (0x31 ∷ 0x32 ∷ 0x33 ∷ 0x34 ∷ 0x35 ∷ 0x36 ∷ 0x37 ∷ 0x38 ∷ 0x39 ∷ []) ≡ 0x0376E6E7
unfolding crc_from crc_bits
mpeg_crc32_digits = refl

-- From 2^30 on a time is not read back.
read_timestamp_late : read_timestamp (push_timestamp 2 (2 ^ 30)) ≡ 0
unfolding read_timestamp push_timestamp write_u16_be
read_timestamp_late = refl

feed_packets-write_pes_packets_example :
    let out = write_pes_packets 0x100 15 long true 90000 true in
    let packets = feed_packets (length out.0) out.0 in
    (payloads packets ≡ long) × Packets 0x100 15 packets × (out.1 ≡ (15 + length packets) % 16)
feed_packets-write_pes_packets_example =
    feed_packets-write_pes_packets 0x100 15 90000 long true true (omega arith) (omega arith)

-- A unit is open when the next one comes.
abbrev open_unit : PesAssembly
open_unit = record { «data» = 9 ∷ []; pts_90k = 1; dts_90k = 1; has_data = true }

process_all-write_video_example :
    let out = write_video unit 93600 90000 true muxer in
    (out.0 ≡ ok tt)
    × Received 0x100 out.1.0
        (record { «data» = unit; pts_90k = 93600; dts_90k = 90000 })
        open_unit
        []
process_all-write_video_example =
    process_all-write_video unit 93600 90000 true muxer open_unit [] (omega arith) (omega arith)
      (omega arith) (omega arith) (omega arith)

process_all-write_audio_example :
    let out = write_audio unit 93600 muxer in
    (out.0 ≡ ok tt)
    × Received 0x101 out.1.0
        (record { «data» = unit; pts_90k = 93600; dts_90k = 93600 })
        open_unit
        []
process_all-write_audio_example =
    process_all-write_audio unit 93600 muxer open_unit [] (omega arith) (omega arith) (omega arith)
      (omega arith) (omega arith)
