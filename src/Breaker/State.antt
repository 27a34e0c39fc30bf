-- ===== src/Breaker/State.antt =====
-- The breaker's state, configuration and metrics (services/voice-switch/circuit_breaker.py).
-- Times are readings of `time.time()` on one scale, as numbers of ticks since the epoch.
use vox_guard.Base.{ℕ, String, Bool, true, false, Option, none}
use vox_guard.Base.Int.{ℤ, pos}

pub data CircuitState : Type 0 where
  closed opened half_open : CircuitState

-- `==` on the enumeration.
abbrev pub same_state : CircuitState → CircuitState → Bool
same_state closed closed = true
same_state opened opened = true
same_state half_open half_open = true
same_state _ _ = false

-- What the protected function, or the fallback, comes back with.
pub data Outcome {ℓ} (E R : Type ℓ) : Type ℓ where
  returned : R → Outcome E R
  raised : E → Outcome E R

-- `expected_exception` is given by the test that the `except` clause makes.
pub record CircuitBreakerConfig {ℓ} (A E R : Type ℓ) : Type ℓ where
  pub failure_threshold : ℕ
  pub success_threshold : ℕ
  pub timeout : ℕ
  pub half_open_max_calls : ℕ
  pub expected_exception : E → Bool
  pub fallback_function : Option (A → Outcome E R)

-- The dict `state_transitions`, with a field for each of its four keys.
pub record Transitions : Type 0 where
  pub closed_to_open : ℕ
  pub open_to_half_open : ℕ
  pub half_open_to_closed : ℕ
  pub half_open_to_open : ℕ

pub record CircuitBreakerMetrics : Type 0 where
  pub total_requests : ℕ
  pub successful_requests : ℕ
  pub failed_requests : ℕ
  pub rejected_requests : ℕ
  pub state_transitions : Transitions
  pub last_failure_time : Option ℕ
  pub last_success_time : Option ℕ
  pub current_state : CircuitState

abbrev pub no_metrics : CircuitBreakerMetrics
no_metrics = record {
  total_requests = 0;
  successful_requests = 0;
  failed_requests = 0;
  rejected_requests = 0;
  state_transitions = record {
    closed_to_open = 0;
    open_to_half_open = 0;
    half_open_to_closed = 0;
    half_open_to_open = 0;
  };
  last_failure_time = none;
  last_success_time = none;
  current_state = closed;
}

-- The configuration never changes, and is a parameter of the methods that read it.
pub record CircuitBreaker : Type 0 where
  pub name : String
  pub metrics : CircuitBreakerMetrics
  pub state : CircuitState
  pub failure_count : ℕ
  pub success_count : ℕ
  pub last_failure_time : Option ℕ
  pub half_open_calls : ℤ

-- `__init__`
unfoldable pub new_breaker : String → CircuitBreaker
new_breaker name = record {
  name = name;
  metrics = no_metrics;
  state = closed;
  failure_count = 0;
  success_count = 0;
  last_failure_time = none;
  half_open_calls = pos 0;
}
