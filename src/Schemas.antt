-- ===== src/Schemas.antt =====
-- src/rag_engine/schemas.py: the data contracts, and the validators of roles and clearances.
-- pydantic refuses a clearance below 0 or above 5; the model has naturals and refuses above 5.
mod Data
pub mod Roles
unfoldable pub use Data.*
mod Tests
