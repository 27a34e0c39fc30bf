-- ===== src/Ml/Server.antt =====
-- The inference server (services/ml-pipeline/inference_server.py).
pub mod Ops
pub mod Counts
mod Examples
