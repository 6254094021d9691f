-- ===== src/State.antt =====
-- The per-token state of apps/engine/src/state.
pub mod Lifecycle
pub mod Market
pub mod Snapshot
pub mod Rolling
pub mod Clock
pub mod Order
pub mod Schedule
pub mod Engine
mod Tests
