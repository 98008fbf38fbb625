-- ===== src/Control.antt =====
-- backend/control/ingestion.go: the pause flag of the tailer, local or shared by the replicas.
pub mod Flag
pub mod Settling
mod Tests
