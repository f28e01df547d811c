-- ===== src/Selfrag.antt =====
-- src/rag_engine/selfrag: the corrective loop of retrieval, generation and grading.
pub mod Loop
mod Tests
