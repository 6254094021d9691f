-- ===== src/Candidate.antt =====
-- The candidate engine of apps/engine/src/candidate.
pub mod Machine
pub mod Hops
pub mod Settle
pub mod Lookup
mod Tests
