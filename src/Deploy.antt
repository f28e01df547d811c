-- ===== src/Deploy.antt =====
-- src/rag_engine/deploy/guards.py: the rate limiter and the check of the demonstration profile.
pub mod RateLimiter
pub mod Synthetic
mod Tests
