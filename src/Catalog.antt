-- ===== src/Catalog.antt =====
-- src/rag_engine/catalog, with the access matrix and the personas of seeds/ that it reads.
pub mod Matrix
pub mod Oracle
mod Tests
