-- ===== src/Domain/Detection.antt =====
-- The detection of masking attacks (services/sip-processor/app/domain/services/services.py).
pub mod Ports
pub mod Service
pub mod Outcome
mod Examples
