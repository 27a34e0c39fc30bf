-- ===== src/Archive.antt =====
-- Cold storage of old rows (services/data-archival).
pub mod Storage
pub mod Service
pub mod Run
pub mod Loss
pub mod Insertion
pub mod Restore
mod Dates
mod Examples
