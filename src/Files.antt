-- ===== src/Files.antt =====
-- backend/tailer/tailer.go: the log file. Its lines, its positions, and how it is cut down.
pub mod Splitter
pub mod Lines
pub mod Pass
pub mod Backseek
pub mod Compact
pub mod Cycle
pub mod CycleResult
pub mod Reread
pub mod Position
pub mod Restore
pub mod Resume
pub mod Start
pub mod Fallback
mod Tests
