-- ===== src/Cache.antt =====
-- backend/internal/cache: the cache of files and its index.
pub mod State
pub mod Counters
pub mod Reading
pub mod Evicting
pub mod Writing
pub mod Chunks
