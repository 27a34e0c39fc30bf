-- ===== src/Breaker.antt =====
-- The circuit breaker of the voice switch (services/voice-switch/circuit_breaker.py).
pub mod State
pub mod Ops
pub mod Call
pub mod Registry
pub mod Invariant
pub mod Tasks
pub mod Slots
pub mod Sequence
pub mod Report
mod Examples
