-- ===== src/Security.antt =====
-- The security assessment of apps/engine/src/security.
pub mod Verdict
pub mod Evidence
pub mod Assessment
mod Tests
