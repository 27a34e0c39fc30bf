-- ===== src/Health.antt =====
-- The health checks of the voice switch (services/voice-switch/health_check.py).
pub mod Status
pub mod Checks
pub mod Overall
pub mod Endpoints
mod Examples
