-- ===== src/Retrieval.antt =====
-- src/rag_engine/retrieval: the vector path, whose search runs under the allowlist of the session.
pub mod Fusion
pub mod Hybrid
pub mod IdMap
pub mod TurboVec
pub mod Modes
pub mod ModeRouter
mod Tests
