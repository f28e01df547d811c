-- ===== src/Store.antt =====
-- src/rag_engine/store: the chunks of the database.
pub mod ChunkSource
mod Tests
