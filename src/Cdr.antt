-- ===== src/Cdr.antt =====
-- Call detail records (services/sip-processor/app/cdr).
pub mod Processor
pub mod Lifecycle
pub mod Metrics
mod Examples
