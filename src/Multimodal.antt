-- ===== src/Multimodal.antt =====
-- src/rag_engine/multimodal: payloads of non-text chunks, and guarded extraction.
pub mod Payload
