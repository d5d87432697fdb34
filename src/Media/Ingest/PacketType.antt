-- ===== src/Media/Ingest/PacketType.antt =====
-- AvcPacketType, AacPacketType and ExVideoPacketType, of include/rtmp_server/protocol/media/media_ingest.hpp.
use rtmp_core.Base.{ℕ}

abbrev pub sequence_header : ℕ
sequence_header = 0

abbrev pub avc_nalu : ℕ
avc_nalu = 1

abbrev pub sequence_start : ℕ
sequence_start = 0
