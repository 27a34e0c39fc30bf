-- ===== src/Ml/Registry.antt =====
-- The model registry (services/ml-pipeline/model_registry.py).
pub mod State
pub mod Ops
pub mod Maintenance
pub mod Writes
pub mod Soundness
pub mod Champion
pub mod Removal
mod Examples
