-- ===== src/Ml/Collector.antt =====
-- The collection of training data (services/ml-pipeline/data_collector.py).
pub mod Frames
pub mod Samples
pub mod Ops
pub mod Cleaning
pub mod Balance
mod Examples
