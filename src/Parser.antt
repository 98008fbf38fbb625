-- ===== src/Parser.antt =====
-- backend/parser/engine.go: which parsers match a log line, and what they extract from it.
pub mod Cache
pub mod Glob
pub mod Engine
pub mod Merge
pub mod Reference
pub mod Sample
mod Tests
