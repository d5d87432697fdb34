-- ===== src/Chunk/Decoder/RoundTrip.antt =====
-- What src/protocol/chunk/chunk_encoder.cpp writes, src/protocol/chunk/chunk_decoder.cpp reads back.
pub mod Headers
pub mod Commit
pub mod Pieces
pub mod Messages
pub mod Sequences
pub mod Tests
