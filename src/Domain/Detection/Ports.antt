-- ===== src/Domain/Detection/Ports.antt =====
-- What the detection service uses of the repositories, the cache and the time-series store
-- (services/sip-processor/app/domain/repositories/repositories.py), over one store `S` of them all,
-- and the events that it emits (services/sip-processor/app/domain/events/events.py).
use vox_guard.Base.{ℕ, String, List}
use vox_guard.Domain.Msisdn.Defs.{Text, Msisdn}
use vox_guard.Domain.Values.{FraudType}
use vox_guard.Domain.Call.{Call}
use vox_guard.Domain.Alert.Defs.{FraudAlert}

-- The interfaces; no implementation of them raises.
pub record Ports (S : Type 0) : Type 0 where
  pub add_caller_to_window : Text → Text → String → String → ℕ → S → S
  pub get_distinct_caller_count : Text → S → ℕ
  pub get_distinct_callers : Text → S → List Text
  pub clear_window : Text → S → S
  pub save_call : Call → S → S
  pub find_calls_in_window : Msisdn → ℕ → ℕ → S → List Call
  pub save_alert : FraudAlert → S → S
  pub ingest_call : Call → S → S
  pub ingest_alert : FraudAlert → S → S

-- The two events of the service, without the identifier and the time that each takes itself.
pub data DomainEvent : Type 0 where
  call_registered : String → Text → Text → String → DomainEvent
  fraud_detected : String → Text → FraudType → ℕ → ℕ → DomainEvent
