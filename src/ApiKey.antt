-- ===== src/ApiKey.antt =====
-- backend/middleware/apikey.go and backend/sharedstate/ratelimiter.go: requests with an API key.
pub mod Sliding
pub mod Limiters
pub mod Network
pub mod Scope
pub mod Auth
pub mod Window
pub mod Demand
pub mod Guards
pub mod Counts
pub mod Burst
pub mod Numbered
mod Tests
