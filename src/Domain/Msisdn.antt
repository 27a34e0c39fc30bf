-- ===== src/Domain/Msisdn.antt =====
-- Nigerian phone numbers (services/sip-processor/app/domain/value_objects/value_objects.py). A text
-- is the list of its code points.
pub mod Defs
pub mod Laws
mod Examples
