-- ===== src/Sim/Position.antt =====
-- Simulated positions: apps/engine/src/sim/position.rs. A signed decimal string is a sign and a
-- magnitude, and any other amount is the number of its decimal string.
pub mod Returns
pub mod Signed
pub mod Book
pub mod Marks
pub mod Ledger
pub mod Exits
