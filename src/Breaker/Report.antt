-- ===== src/Breaker/Report.antt =====
-- What is reported about the registered breakers (services/voice-switch/circuit_breaker.py).
use vox_guard.Base.{
  ◌+◌, ◌≤◌, ◌<◌, ◌≡◌, refl, String, Option, none, some, [], ◌∷◌, arith, if◌then◌else◌, str_eq,
}
use vox_guard.Base.Dict.{lookup, lookup-insert}
use vox_guard.Breaker.State.{CircuitBreakerConfig, CircuitBreaker}
use vox_guard.Breaker.Invariant.{IsConsistent}
use vox_guard.Breaker.Registry.{
  Ratio, MetricsReport, CircuitBreakers, get_metrics, get_circuit_breaker, register_circuit_breaker,
  get_all_metrics,
}

pub record IsRate (r : Ratio) : Type 0 where
  pub defined : 0 < r.denominator
  pub at_most_one : r.numerator ≤ r.denominator

-- A consistent breaker reports a failure rate between 0 and 1, with no division by zero, and a
-- number of failures and successes that add up to the requests that it reports.
pub get_metrics-IsRate {ℓ} :
    {A E R : Type ℓ} (config : CircuitBreakerConfig A E R) (b : CircuitBreaker)
    → IsConsistent config b
    → let m = get_metrics b in
      IsRate m.failure_rate
      × (m.successful_requests + m.failed_requests ≡ m.total_requests)
      × (m.state ≡ b.metrics.current_state)
unfolding get_metrics
get_metrics-IsRate config b h = ground arith

abbrev pub report : Option CircuitBreaker → Option MetricsReport
report none = none
report (some b) = some (get_metrics b)

lookup-get_all_metrics :
    (name : String) (r : CircuitBreakers) → lookup name (get_all_metrics r) ≡ report (lookup name r)
unfolding get_all_metrics
lookup-get_all_metrics name [] = refl
lookup-get_all_metrics name (e ∷ r) = ground (arith, lookup-get_all_metrics name r)

-- After a breaker is registered, `get_all_metrics` has its report under its name, in place of any
-- other breaker of that name, and under every other name what the registry had there before.
pub get_all_metrics-register_circuit_breaker :
    (b : CircuitBreaker) (name : String) (r : CircuitBreakers)
    → lookup name (get_all_metrics (register_circuit_breaker b r))
      ≡ (if str_eq b.name name then some (get_metrics b) else report (get_circuit_breaker name r))
unfolding register_circuit_breaker get_circuit_breaker
get_all_metrics-register_circuit_breaker b name r =
    rw (lookup-get_all_metrics, lookup-insert) (ground arith)
