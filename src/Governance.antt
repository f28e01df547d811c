-- ===== src/Governance.antt =====
-- src/rag_engine/governance: who may read what, and in which form.
pub mod Access
pub mod Masking
pub mod Filter
pub mod Allowlist
pub mod Citations
pub mod Rebac
mod Tests
