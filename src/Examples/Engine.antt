-- ===== src/Examples/Engine.antt =====
-- Runs of the engine model on concrete inputs.
pub mod Values
pub mod Runs
pub mod Outcomes
pub mod Metrics
