-- ===== src/Media/Ingest/VideoCodec.antt =====
-- VideoCodec, of include/rtmp_server/protocol/media/media_ingest.hpp.
use rtmp_core.Base.{ℕ}

abbrev pub unknown : ℕ
unknown = 0xFF

abbrev pub avc : ℕ
avc = 7

abbrev pub hevc : ℕ
hevc = 12
