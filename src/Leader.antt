-- ===== src/Leader.antt =====
-- backend/sharedstate/leader.go: one instance is elected through a Redis key with a time to live.
pub mod Lock
pub mod Loop
pub mod Holding
pub mod Terms
pub mod Failures
pub mod Callbacks
mod Tests
