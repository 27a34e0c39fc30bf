-- ===== src/Ncc.antt =====
-- The reports to the regulator (services/ncc-integration): the upload of files, the requests to
-- the incident service and the statistics of a day.
pub mod Sftp
pub mod Upload
pub mod Atrs
pub mod Retries
pub mod Report
pub mod Totals
mod Examples
