-- ===== src/Ingest.antt =====
-- internal/ingest: decoding, the archive on disk and its index, polling, replay and pruning.
pub mod Decode
pub mod BlobPath
pub mod PathTrip
pub mod Archive
pub mod Replay
pub mod InOrder
pub mod Pruning
pub mod Durable
