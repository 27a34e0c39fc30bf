-- ===== src/Inference.antt =====
-- The masking detection engine (services/sip-processor/app/inference): a model, and rules where
-- there is none.
pub mod Features
pub mod Model
pub mod Engine
pub mod Rules
pub mod Operation
mod Examples
