-- ===== src/Sentinel.antt =====
-- The Sentinel engine of the SIP processor (services/sip-processor/app/sentinel).
pub mod Cache
pub mod Records
pub mod Parser
pub mod Ingest
