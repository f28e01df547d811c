-- ===== src/Trace.antt =====
-- src/rag_engine/trace.py: the trace of one query.
pub mod Terms
pub mod Gates
pub mod Stages
pub mod Build
mod Tests
