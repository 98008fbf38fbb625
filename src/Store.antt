-- ===== src/Store.antt =====
-- backend/tailer/tailer.go: how rows get into the database.
pub mod Insert
pub mod Chunks
pub mod Stored
pub mod Batch
mod Tests
