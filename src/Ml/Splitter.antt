-- ===== src/Ml/Splitter.antt =====
-- Sharing traffic out between two models (services/ml-pipeline/ab_testing/traffic_splitter.py).
pub mod Ops
pub mod Counts
pub mod Rollout
mod Examples
