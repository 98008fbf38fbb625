-- ===== src/Flush.antt =====
-- backend/sharedstate/flushtracker.go and the publishing loop of backend/tailer/reader.go: sequence
-- numbers are minted by the reader, reported by the workers, and the tracker follows the last
-- number up to which all are reported.
pub mod Hash
pub mod Tracker
pub mod Contiguous
pub mod Progress
pub mod Reader
pub mod Covers
pub mod Gaps
mod Memory
mod Tests
