-- ===== src/Ml/Retraining.antt =====
-- The retraining pipeline (services/ml-pipeline/retraining_orchestrator.py).
pub mod Calls
pub mod State
pub mod Steps
pub mod Runs
pub mod Failure
pub mod Schedule
mod Examples
