-- ===== src/Lab.antt =====
-- The research lab of apps/engine/src/lab.
pub mod Split
mod Tests
