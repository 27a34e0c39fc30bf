-- ===== src/Domain/Alert.antt =====
-- Fraud alerts and the service that moves them through their workflow
-- (services/sip-processor/app/domain/entities/entities.py and services/services.py).
pub mod Defs
pub mod Workflow
pub mod Service
mod Examples
