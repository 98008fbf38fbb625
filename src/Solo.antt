-- ===== src/Solo.antt =====
-- backend/tailer/tailer.go: ingestion on a single server.
pub mod Loop
pub mod Rows
pub mod Passes
pub mod Losses
mod Tests
