-- ===== src/Media/Ts/Tables.antt =====
-- The program tables (src/media/ts/ts_muxer.cpp, mpeg_crc32 to write_program_tables).
use rtmp_core.Base.{
  ℕ, zero, suc, ◌+◌, ◌-◌, ◌*◌, ◌/◌, ◌%◌, ◌^◌, true, false, List, [], ◌∷◌, ◌++◌, length, ◌==◌,
  if◌then◌else◌,
}
use Prim.Native.Nat.{bit_xor}
use rtmp_core.Core.ByteOrder.{write_u16_be, write_u32_be}
use rtmp_core.Media.Ts.{packet_size, TsMuxerConfig, TsMuxer, fill, packet_header, next_cc}

unfoldable pub crc_bits : ℕ → ℕ → ℕ
crc_bits zero crc = crc
crc_bits (suc n) crc =
    let shifted = crc * 2 % 2 ^ 32 in
    crc_bits n (if crc / 2 ^ 31 % 2 == 0 then shifted else bit_xor shifted 0x04C11DB7)

unfoldable pub crc_from : ℕ → List ℕ → ℕ
crc_from crc [] = crc
crc_from crc (b ∷ bs) = crc_from (crc_bits 8 (bit_xor crc (b * 2 ^ 24))) bs

abbrev pub mpeg_crc32 : List ℕ → ℕ
mpeg_crc32 bytes = crc_from 0xFFFFFFFF bytes

unfoldable pub write_psi_packet : ℕ → ℕ → List ℕ → List ℕ
write_psi_packet pid cc section =
    let bytes = packet_header true pid false cc ++ (0 ∷ section) in
    bytes ++ fill (packet_size - length bytes)

abbrev pub with_crc : List ℕ → List ℕ
with_crc section = section ++ write_u32_be (mpeg_crc32 section)

abbrev pub pat_section : TsMuxerConfig → List ℕ
pat_section c = with_crc (
    (0x00 ∷ [])
    ++ (write_u16_be (0xB000 + 13)
        ++ (write_u16_be 0x0001
            ++ ((0xC1 ∷ 0x00 ∷ 0x00 ∷ [])
                ++ (write_u16_be c.program_number ++ write_u16_be (0xE000 + c.pmt_pid % 2 ^ 13))))))

abbrev pub stream_entry : ℕ → ℕ → List ℕ
stream_entry stream_type pid =
    stream_type ∷ (write_u16_be (0xE000 + pid % 2 ^ 13) ++ write_u16_be 0xF000)

abbrev pub pmt_section : TsMuxerConfig → List ℕ
pmt_section c = with_crc (
    (0x02 ∷ [])
    ++ (write_u16_be (0xB000 + 23)
        ++ (write_u16_be c.program_number
            ++ ((0xC1 ∷ 0x00 ∷ 0x00 ∷ [])
                ++ (write_u16_be (0xE000 + c.video_pid % 2 ^ 13)
                    ++ (write_u16_be 0xF000
                        ++ (stream_entry 0x1B c.video_pid ++ stream_entry 0x0F c.audio_pid)))))))

unfoldable pub write_program_tables : TsMuxer → List ℕ × TsMuxer
write_program_tables m = (
  write_psi_packet 0 m.pat_cc (pat_section m.config)
      ++ write_psi_packet m.config.pmt_pid m.pmt_cc (pmt_section m.config),
  record m { pat_cc = next_cc m.pat_cc; pmt_cc = next_cc m.pmt_cc },
)
