-- ===== src/Ml/Deployment.antt =====
-- The deployment of a challenger model (services/ml-pipeline/ab_testing/deployment_manager.py).
pub mod State
pub mod Evaluation
pub mod Manager
pub mod Decision
pub mod Frozen
mod Examples
