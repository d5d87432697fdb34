-- ===== src/Media/Ingest/AudioCodec.antt =====
-- AudioCodec, of include/rtmp_server/protocol/media/media_ingest.hpp.
use rtmp_core.Base.{ℕ}

abbrev pub unknown : ℕ
unknown = 0xFF

abbrev pub aac : ℕ
aac = 10
