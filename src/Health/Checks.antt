-- ===== src/Health/Checks.antt =====
-- The three component checks, the full check and the endpoints
-- (services/voice-switch/health_check.py). The pool, the Redis client, the detection engine and
-- `psutil` are not the repository's: what they answer is an argument.
use vox_guard.Base.{
  ℕ, ◌-◌, ◌*◌, String, Option, none, some, List, [], ◌∷◌, ◌==◌, if◌then◌else◌, str_eq,
}
use vox_guard.Base.Dict.{Dict}
use vox_guard.Breaker.State.{CircuitState, opened}
use vox_guard.Breaker.Registry.{MetricsReport, CircuitBreakers, get_all_metrics}
use vox_guard.Health.Status.{
  HealthStatus, healthy, degraded, unhealthy, db_size, answer, ComponentHealth,
  determine_overall_status,
}

-- What an awaited call returns, or the text of the exception that it raises.
pub data Reply (A : Type 0) : Type 0 where
  replied : A → Reply A
  failed : String → Reply A

-- The client's answers to `ping()` and `dbsize()`.
pub record RedisClient : Type 0 where
  pub ping : Reply (Unit {0})
  pub dbsize : Reply ℕ

-- What `GET /health` of the detection engine comes to: a status with the body read as JSON and
-- the text `HTTP <status>`, a timeout, or another exception.
pub data AcmReply : Type 0 where
  responded : ℕ → Reply String → String → AcmReply
  timed_out : AcmReply
  broken : String → AcmReply

-- The clock in seconds where a check starts and where it takes its latency.
pub record Span : Type 0 where
  pub started : ℕ
  pub stopped : ℕ

unfoldable pub latency : Span → ℕ
latency t = (t.stopped - t.started) * 1000

unfoldable pub query_yugabyte : Span → Reply (Unit {0}) → ComponentHealth
unfolding latency
query_yugabyte t (replied _) = record {
  name = "yugabyte";
  status = healthy;
  latency_ms = latency t;
  error = "";
  metadata = none;
}
query_yugabyte t (failed e) = record {
  name = "yugabyte";
  status = unhealthy;
  latency_ms = latency t;
  error = e;
  metadata = none;
}

unfoldable pub check_yugabyte : Span → Option (Reply (Unit {0})) → ComponentHealth
unfolding query_yugabyte
check_yugabyte t none = record {
  name = "yugabyte";
  status = degraded;
  latency_ms = 0;
  error = "Database pool not configured";
  metadata = none;
}
check_yugabyte t (some query) = query_yugabyte t query

unfoldable pub redis_failure : Span → String → ComponentHealth
unfolding latency
redis_failure t e = record {
  name = "redis";
  status = unhealthy;
  latency_ms = latency t;
  error = e;
  metadata = none;
}

unfoldable pub query_redis : Span → Reply (Unit {0}) → Reply ℕ → ComponentHealth
unfolding redis_failure
query_redis t (failed e) _ = redis_failure t e
query_redis t (replied _) (failed e) = redis_failure t e
query_redis t (replied _) (replied size) = record {
  name = "redis";
  status = healthy;
  latency_ms = latency t;
  error = "";
  metadata = some (db_size size);
}

unfoldable pub check_redis : Span → Option RedisClient → ComponentHealth
unfolding query_redis
check_redis t none = record {
  name = "redis";
  status = degraded;
  latency_ms = 0;
  error = "Redis client not configured";
  metadata = none;
}
check_redis t (some client) = query_redis t client.ping client.dbsize

unfoldable pub acm_failure : Span → String → ComponentHealth
unfolding latency
acm_failure t e = record {
  name = "acm_engine";
  status = unhealthy;
  latency_ms = latency t;
  error = e;
  metadata = none;
}

unfoldable pub read_body : Span → Reply String → ComponentHealth
unfolding acm_failure
read_body t (failed e) = acm_failure t e
read_body t (replied body) = record {
  name = "acm_engine";
  status = healthy;
  latency_ms = latency t;
  error = "";
  metadata = some (answer body);
}

unfoldable pub query_acm_engine : Span → AcmReply → ComponentHealth
unfolding read_body
query_acm_engine t (responded status body text) =
    if status == 200 then read_body t body else acm_failure t text
query_acm_engine t timed_out = acm_failure t "Timeout (>5s)"
query_acm_engine t (broken e) = acm_failure t e

abbrev pub acm_not_configured : ComponentHealth
acm_not_configured = record {
  name = "acm_engine";
  status = degraded;
  latency_ms = 0;
  error = "ACM engine URL not configured";
  metadata = none;
}

-- An empty URL counts as none.
unfoldable pub check_acm_engine : Span → Option String → AcmReply → ComponentHealth
unfolding query_acm_engine
check_acm_engine t none reply = acm_not_configured
check_acm_engine t (some url) reply =
    if str_eq url "" then acm_not_configured else query_acm_engine t reply

-- The loop of `full_health_check` over the reported breakers.
unfoldable pub note_open : CircuitState → HealthStatus → HealthStatus
note_open opened healthy = degraded
note_open _ status = status

unfoldable pub note_open_breakers : Dict MetricsReport → HealthStatus → HealthStatus
unfolding note_open
note_open_breakers [] status = status
note_open_breakers (e ∷ rest) status = note_open_breakers rest (note_open e.1.state status)

-- The fields of a `HealthChecker` and the answers of its surroundings during one check.
pub record Surroundings : Type 0 where
  pub version : String
  pub node_id : String
  pub start_time : ℕ
  pub yugabyte_pool : Option (Reply (Unit {0}))
  pub redis_client : Option RedisClient
  pub acm_engine_url : Option String
  pub acm_reply : AcmReply
  pub yugabyte_span : Span
  pub redis_span : Span
  pub acm_span : Span
  pub system_metrics : Dict String
  pub now : ℕ
  pub later : ℕ

pub record HealthCheckResponse : Type 0 where
  pub status : HealthStatus
  pub timestamp : ℕ
  pub version : String
  pub node_id : String
  pub uptime_seconds : ℕ
  pub components : List ComponentHealth
  pub circuit_breakers : Dict MetricsReport
  pub system_metrics : Dict String

unfoldable pub gather_components : Surroundings → List ComponentHealth
unfolding check_yugabyte check_redis check_acm_engine
gather_components w =
    check_yugabyte w.yugabyte_span w.yugabyte_pool
    ∷ check_redis w.redis_span w.redis_client
    ∷ check_acm_engine w.acm_span w.acm_engine_url w.acm_reply
    ∷ []

-- `registry` is the registry of breakers once the components have answered.
unfoldable pub full_health_check : Surroundings → CircuitBreakers → HealthCheckResponse
full_health_check w registry = record {
  status =
      note_open_breakers (get_all_metrics registry)
        (determine_overall_status (gather_components w));
  timestamp = w.now;
  version = w.version;
  node_id = w.node_id;
  uptime_seconds = w.later - w.start_time;
  components = gather_components w;
  circuit_breakers = get_all_metrics registry;
  system_metrics = w.system_metrics;
}

unfoldable pub readiness_code : HealthStatus → ℕ
readiness_code unhealthy = 503
readiness_code _ = 200

-- The response is returned as a dict.
unfoldable pub readiness_probe : Surroundings → CircuitBreakers → HealthCheckResponse × ℕ
unfolding full_health_check readiness_code
readiness_probe w registry = let r = full_health_check w registry in (r, readiness_code r.status)

unfoldable pub health_code : HealthStatus → ℕ
health_code healthy = 200
health_code degraded = 200
health_code unhealthy = 503

unfoldable pub create_health_endpoint : Surroundings → CircuitBreakers → HealthCheckResponse × ℕ
unfolding full_health_check health_code
create_health_endpoint w registry =
    let r = full_health_check w registry in (r, health_code r.status)
