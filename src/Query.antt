-- ===== src/Query.antt =====
-- backend/handler/querybuilder.go: the WHERE clauses of the log queries. A clause is a list of
-- pieces: fixed SQL text, a JSONB key between quotes, and a numbered placeholder.
pub mod Sql
pub mod Operators
pub mod Where
pub mod Numbering
pub mod Safety
pub mod Paging
pub mod Count
mod Tests
