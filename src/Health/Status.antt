-- ===== src/Health/Status.antt =====
-- Components and the status of the whole (services/voice-switch/health_check.py).
use vox_guard.Base.{
  ℕ, ◌+◌, String, Bool, true, false, ◌&&◌, ◌||◌, Option, List, leb, ltb, if◌then◌else◌, count_if,
  any, str_eq,
}

pub data HealthStatus : Type 0 where
  healthy degraded unhealthy : HealthStatus

abbrev pub is_healthy : HealthStatus → Bool
is_healthy healthy = true
is_healthy _ = false

abbrev pub is_degraded : HealthStatus → Bool
is_degraded degraded = true
is_degraded _ = false

abbrev pub is_unhealthy : HealthStatus → Bool
is_unhealthy unhealthy = true
is_unhealthy _ = false

-- The two dicts that the checks put into `metadata`: the size of the Redis database, and the
-- answer of the detection engine, which is not looked into.
pub data Metadata : Type 0 where
  db_size : ℕ → Metadata
  answer : String → Metadata

pub record ComponentHealth : Type 0 where
  pub name : String
  pub status : HealthStatus
  pub latency_ms : ℕ
  pub error : String
  pub metadata : Option Metadata

-- `component.name in critical_components`
unfoldable pub is_critical : String → Bool
is_critical name = str_eq name "yugabyte" || str_eq name "redis"

-- The test of the loop in `determine_overall_status`.
unfoldable pub is_critical_failure : ComponentHealth → Bool
unfolding is_critical
is_critical_failure c = is_critical c.name && is_unhealthy c.status

unfoldable pub determine_overall_status : List ComponentHealth → HealthStatus
unfolding is_critical_failure
determine_overall_status components =
    let unhealthy_count = count_if (λ (c : ComponentHealth). is_unhealthy c.status) components in
    let degraded_count = count_if (λ (c : ComponentHealth). is_degraded c.status) components in
    if any is_critical_failure components
    then unhealthy
    else if leb 2 (unhealthy_count + degraded_count)
    then unhealthy
    else if ltb 0 degraded_count || ltb 0 unhealthy_count
    then degraded
    else healthy
