-- ===== src/Login.antt =====
-- backend/main.go: the limits of login attempts.
pub mod Bucket
pub mod Bounds
pub mod Sweeps
mod Tests
