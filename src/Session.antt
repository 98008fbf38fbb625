-- ===== src/Session.antt =====
-- backend/auth/auth.go: session tokens, their keys, and the rules for passwords.
pub mod Keys
pub mod Grace
pub mod Timeout
pub mod Guards
pub mod Passwords
mod Tests
