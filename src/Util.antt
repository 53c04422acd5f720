-- ===== src/Util.antt =====
-- src/util: compression of sync payloads, and the queue between threads.
pub mod Compression
pub mod Queue
pub mod Tests
