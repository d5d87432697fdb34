-- ===== src/Media/Ingest/VideoFrameType.antt =====
-- VideoFrameType, of include/rtmp_server/protocol/media/media_ingest.hpp.
use rtmp_core.Base.{ℕ}

abbrev pub key_frame : ℕ
key_frame = 1

abbrev pub generated_key_frame : ℕ
generated_key_frame = 4
