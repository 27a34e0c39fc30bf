-- ===== src/Health/Examples.antt =====
-- A service whose cache fails and whose detection engine is not configured.
use vox_guard.Base.{◌≡◌, refl, none, some, [], ◌∷◌}
use vox_guard.Breaker.Registry.{get_all_metrics}
use vox_guard.Health.Status.{
  healthy, degraded, ComponentHealth, is_critical, determine_overall_status,
}
use vox_guard.Health.Checks.{
  replied, failed, timed_out, Span, Surroundings, gather_components, note_open_breakers,
  readiness_probe, create_health_endpoint,
}
use vox_guard.Health.Overall.{determine_overall_status-load}
use vox_guard.Health.Endpoints.{create_health_endpoint-eq-readiness_probe}

abbrev database : ComponentHealth
database = record {
  name = "yugabyte";
  status = healthy;
  latency_ms = 4;
  error = "";
  metadata = none;
}

abbrev engine : ComponentHealth
engine = record {
  name = "acm_engine";
  status = degraded;
  latency_ms = 0;
  error = "";
  metadata = none;
}

abbrev second : Span
second = record { started = 10; stopped = 11 }

abbrev surroundings : Surroundings
surroundings = record {
  version = "1";
  node_id = "n";
  start_time = 0;
  yugabyte_pool = some (replied tt);
  redis_client = some (record { ping = failed "refused"; dbsize = replied 3 });
  acm_engine_url = some "";
  acm_reply = timed_out;
  yugabyte_span = second;
  redis_span = second;
  acm_span = second;
  system_metrics = [];
  now = 12;
  later = 12;
}

unavailable : (readiness_probe surroundings []).1 ≡ 503
unfolding readiness_probe gather_components determine_overall_status note_open_breakers
    get_all_metrics
unavailable = refl

determine_overall_status-load_example : determine_overall_status (database ∷ engine ∷ []) ≡ degraded
unfolding is_critical
determine_overall_status-load_example = determine_overall_status-load (database ∷ engine ∷ [])

create_health_endpoint-eq-readiness_probe_example :
    create_health_endpoint surroundings [] ≡ readiness_probe surroundings []
create_health_endpoint-eq-readiness_probe_example =
    create_health_endpoint-eq-readiness_probe surroundings []
