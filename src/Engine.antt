-- ===== src/Engine.antt =====
-- apps/control-plane/internal/engine: the load profile, the state of one run, live control, and the
-- outcome of a run.
pub mod Schedule
pub mod Process
pub mod Outcome
pub mod Histogram
pub mod Instances
pub mod Errors
pub mod Aggregator
pub mod Registry
