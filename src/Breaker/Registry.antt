-- ===== src/Breaker/Registry.antt =====
-- The registry of breakers and their reported metrics (services/voice-switch/circuit_breaker.py).
-- The registry holds the breakers themselves: a snapshot of it shows each as it is at that moment.
use vox_guard.Base.{ℕ, zero, suc, String, Option, map}
use vox_guard.Base.Dict.{Dict, lookup, insert}
use vox_guard.Breaker.State.{CircuitState, Transitions, CircuitBreaker}

-- A quotient of two counters, which Python computes as a float.
pub record Ratio : Type 0 where
  pub numerator : ℕ
  pub denominator : ℕ

-- The dict that `get_metrics` returns.
pub record MetricsReport : Type 0 where
  pub name : String
  pub state : CircuitState
  pub total_requests : ℕ
  pub successful_requests : ℕ
  pub failed_requests : ℕ
  pub rejected_requests : ℕ
  pub failure_rate : Ratio
  pub state_transitions : Transitions
  pub last_failure_time : Option ℕ
  pub last_success_time : Option ℕ

-- `failed / total if total > 0 else 0`
unfoldable pub failure_rate : ℕ → ℕ → Ratio
failure_rate failed zero = record { numerator = 0; denominator = 1 }
failure_rate failed (suc total) = record { numerator = failed; denominator = suc total }

unfoldable pub get_metrics : CircuitBreaker → MetricsReport
unfolding failure_rate
get_metrics b = record {
  name = b.name;
  state = b.state;
  total_requests = b.metrics.total_requests;
  successful_requests = b.metrics.successful_requests;
  failed_requests = b.metrics.failed_requests;
  rejected_requests = b.metrics.rejected_requests;
  failure_rate = failure_rate b.metrics.failed_requests b.metrics.total_requests;
  state_transitions = b.metrics.state_transitions;
  last_failure_time = b.metrics.last_failure_time;
  last_success_time = b.metrics.last_success_time;
}

abbrev pub CircuitBreakers : Type 0
CircuitBreakers = Dict CircuitBreaker

unfoldable pub get_circuit_breaker : String → CircuitBreakers → Option CircuitBreaker
get_circuit_breaker name registry = lookup name registry

unfoldable pub register_circuit_breaker : CircuitBreaker → CircuitBreakers → CircuitBreakers
register_circuit_breaker breaker registry = insert breaker.name breaker registry

unfoldable pub get_all_metrics : CircuitBreakers → Dict MetricsReport
unfolding get_metrics
get_all_metrics registry = map (λ e. (e.0, get_metrics e.1)) registry
