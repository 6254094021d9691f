-- ===== src/Sim.antt =====
-- The execution simulator of apps/engine/src/sim.
pub mod Types
pub mod Models
pub mod Curve
pub mod Venue
pub mod Result
pub mod Position
pub mod Policy
pub mod Exec
pub mod Harness
pub mod Outcome
mod Samples
mod Tests
