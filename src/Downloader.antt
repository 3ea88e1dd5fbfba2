-- ===== src/Downloader.antt =====
-- backend/internal/downloader: how a file is cut into chunks and fetched by workers, and the task
-- slot that a prefetching download gives back while it is paused.
pub mod Plan
pub mod Resume
pub mod Lease
pub mod Worker
pub mod Range
pub mod Inflight
pub mod Digest
