-- ===== src/Cdr/Metrics.antt =====
-- The metrics of the calls to a number (services/sip-processor/app/cdr/metrics.py).
pub mod Counters
pub mod Window
mod Examples
