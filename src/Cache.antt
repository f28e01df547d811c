-- ===== src/Cache.antt =====
-- src/rag_engine/cache: the permission-aware answer cache.
pub mod Key
pub mod Semantic
mod Tests
