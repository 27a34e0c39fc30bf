-- ===== src/Domain.antt =====
-- The detection domain of the SIP processor (services/sip-processor/app/domain).
pub mod Result
pub mod Msisdn
pub mod Values
pub mod Call
pub mod Alert
pub mod Detection
