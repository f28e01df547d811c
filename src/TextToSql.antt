-- ===== src/TextToSql.antt =====
-- src/rag_engine/texttosql: the rows of a warehouse query.
pub mod ResultMasking
pub mod Gate
pub mod Warehouse
pub mod Agent
mod Tests
