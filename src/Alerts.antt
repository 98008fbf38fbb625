-- ===== src/Alerts.antt =====
-- backend/alertengine: which log entries a rule is about, when it fires, and the checks for silent
-- devices.
pub mod Pattern
pub mod Conditions
pub mod Counter
pub mod Cooldown
pub mod Batch
pub mod Batches
pub mod Silence
pub mod Escalation
mod Tests
