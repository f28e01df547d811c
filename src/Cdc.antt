-- ===== src/Cdc.antt =====
-- src/rag_engine/cdc: change events, their processor, and re-embedding.
pub mod Events
pub mod Processor
pub mod ReEmbed
mod MemoryStore
mod Tests
