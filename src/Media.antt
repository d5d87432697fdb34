-- ===== src/Media.antt =====
-- The elementary streams: src/media/h264, src/media/hevc, and src/protocol/media/media_ingest.cpp.
pub mod Nals
pub mod Annexb
pub mod Avc
pub mod Hevc
pub mod Ingest
pub mod Adts
pub mod Ts
pub mod Tests
