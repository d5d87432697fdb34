-- ===== src/Playback.antt =====
-- Playback to subscribers: the frame that a publisher's message becomes, the backpressure of one
-- viewer and the cache of the latest group of pictures (include/rtmp_server/protocol/commands).
pub mod ViewerQueue
pub mod GopCache
pub mod Tests
