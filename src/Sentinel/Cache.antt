-- ===== src/Sentinel/Cache.antt =====
-- `SimpleCache` and `cached` (services/sip-processor/app/sentinel/performance.py). Times are in
-- seconds; each call reads the clock once.
pub mod Defs
pub mod Refinement
pub mod Calls
mod Examples
