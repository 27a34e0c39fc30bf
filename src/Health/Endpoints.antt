-- ===== src/Health/Endpoints.antt =====
-- The full check and the two endpoints (services/voice-switch/health_check.py).
use vox_guard.Base.{
  ◌≡◌, ◌↔◌, refl, ap, Bool, true, false, ◌&&◌, ◌||◌, [], ◌∷◌, arith, if◌then◌else◌,
}
use vox_guard.Base.Dict.{Dict}
use vox_guard.Breaker.State.{CircuitState, opened}
use vox_guard.Breaker.Registry.{MetricsReport, CircuitBreakers, get_all_metrics}
use vox_guard.Health.Status.{
  HealthStatus, healthy, degraded, unhealthy, is_healthy, determine_overall_status,
}
use vox_guard.Health.Checks.{
  Surroundings, gather_components, note_open_breakers, full_health_check, readiness_probe,
  create_health_endpoint, readiness_code, health_code,
}

abbrev is_opened : CircuitState → Bool
is_opened opened = true
is_opened _ = false

abbrev pub has_open : Dict MetricsReport → Bool
has_open [] = false
has_open (e ∷ rest) = is_opened e.1.state || has_open rest

-- An open breaker lowers a healthy status to degraded, and nothing else.
note_open_breakers_lem :
    (reports : Dict MetricsReport) (status : HealthStatus)
    → note_open_breakers reports status
      ≡ (if has_open reports && is_healthy status then degraded else status)
unfolding note_open_breakers
note_open_breakers_lem [] status = ground arith
note_open_breakers_lem (e ∷ rest) healthy =
    ground (arith, note_open_breakers_lem rest healthy, note_open_breakers_lem rest degraded)
note_open_breakers_lem (e ∷ rest) degraded = ground (arith, note_open_breakers_lem rest degraded)
note_open_breakers_lem (e ∷ rest) unhealthy = ground (arith, note_open_breakers_lem rest unhealthy)

-- The full check reports a healthy service exactly if the components are healthy over all and no
-- registered breaker is open.
pub full_health_check-healthy :
    (w : Surroundings) (registry : CircuitBreakers)
    → ((full_health_check w registry).status ≡ healthy) ↔ (
        (determine_overall_status (gather_components w) ≡ healthy)
        × (has_open (get_all_metrics registry) ≡ false))
unfolding full_health_check
full_health_check-healthy w registry = ground (
  arith,
  note_open_breakers_lem (get_all_metrics registry)
      (determine_overall_status (gather_components w)),
)

-- The readiness probe answers 503 exactly if the components alone make the service unhealthy:
-- open breakers never take it out of service.
pub readiness_probe-unavailable :
    (w : Surroundings) (registry : CircuitBreakers)
    → ((readiness_probe w registry).1 ≡ 503)
      ↔ (determine_overall_status (gather_components w) ≡ unhealthy)
unfolding readiness_probe full_health_check
readiness_probe-unavailable w registry = ground (
  arith,
  note_open_breakers_lem (get_all_metrics registry)
      (determine_overall_status (gather_components w)),
)

same_code : (s : HealthStatus) → health_code s ≡ readiness_code s
unfolding health_code readiness_code
same_code healthy = refl
same_code degraded = refl
same_code unhealthy = refl

-- The health endpoint and the readiness probe give the same answer with the same code.
pub create_health_endpoint-eq-readiness_probe :
    (w : Surroundings) (registry : CircuitBreakers)
    → create_health_endpoint w registry ≡ readiness_probe w registry
unfolding create_health_endpoint readiness_probe
create_health_endpoint-eq-readiness_probe w registry =
    ap (λ c. (full_health_check w registry, c)) (same_code (full_health_check w registry).status)
