-- ===== src/Core.antt =====
-- include/rtmp_server/core: what every protocol layer uses.
pub mod Error
pub mod Result
pub mod ByteOrder
pub mod ByteReader
