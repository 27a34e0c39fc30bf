-- ===== src/Sentinel/Ingest.antt =====
-- The ingestion of a file of call records (services/sip-processor/app/sentinel/parser.py,
-- database.py and routes.py).
pub mod Dedupe
pub mod Database
pub mod Endpoint
pub mod Accounts
mod Examples
