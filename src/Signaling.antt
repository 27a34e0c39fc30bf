-- ===== src/Signaling.antt =====
-- SIP signaling (services/sip-processor/app/signaling): the numbers and headers of a message, and
-- the queue of the listener.
pub mod Text
pub mod Numbers
pub mod Headers
pub mod Message
pub mod Listener
pub mod Delivery
pub mod Extraction
pub mod Repeated
mod Examples
