-- ===== src/Sim/Tests.antt =====
-- The simulator of apps/engine/src/sim run on concrete markets and positions.
mod Fills
mod Positions
mod Policies
mod Executions
mod Runs
mod Outcomes
