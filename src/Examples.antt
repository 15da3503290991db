-- ===== src/Examples.antt =====
-- Concrete inputs of the models of the control plane and the k6 extension, and runs of the models on them.
pub mod Numbers
pub mod Engine
pub mod K6Output
pub mod Compiler
pub mod Start
pub mod Stores
pub mod Auth
pub mod Runs
