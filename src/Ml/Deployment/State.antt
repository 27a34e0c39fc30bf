-- ===== src/Ml/Deployment/State.antt =====
-- The manager's state (services/ml-pipeline/ab_testing/deployment_manager.py). Fractions of the
-- traffic, scores, probabilities and milliseconds are in units of 1/10000.
use vox_guard.Base.{ℕ, String, Bool, Option, List}
use vox_guard.Base.Int.{ℤ}
use vox_guard.Ml.Registry.State.{ModelRegistry}
use vox_guard.Ml.Splitter.Ops.{TrafficSplitter}

pub data DeploymentPhase : Type 0 where
  inactive pilot ramp_up full_rollout rollback : DeploymentPhase

-- `ramp_up_step` is never read.
pub record AbTestConfig : Type 0 where
  pub champion_model_id : String
  pub challenger_model_id : String
  pub pilot_traffic : ℕ
  pub ramp_up_step : ℕ
  pub ramp_up_duration_hours : ℕ
  pub min_samples_per_model : ℕ
  pub confidence_level : ℕ
  pub min_effect_size : ℕ
  pub max_latency_ms : ℕ
  pub min_auc_score : ℕ
  pub max_error_rate : ℕ
  pub enable_auto_rollback : Bool
  pub rollback_on_latency : Bool
  pub rollback_on_accuracy : Bool

pub data Recommendation : Type 0 where
  promote continue roll_back : Recommendation

-- A dict of three lists, which grow together.
pub record MetricsLog : Type 0 where
  pub latencies : List ℕ
  pub predictions : List ℕ
  pub errors : List ℕ

-- A quotient of two counts.
pub record ErrorRate : Type 0 where
  pub errors : ℕ
  pub requests : ℕ

pub record AbTestMetrics : Type 0 where
  pub champion_requests : ℕ
  pub challenger_requests : ℕ
  pub champion_avg_latency_ms : ℕ
  pub challenger_avg_latency_ms : ℕ
  pub champion_auc : ℕ
  pub challenger_auc : ℕ
  pub champion_error_rate : ErrorRate
  pub challenger_error_rate : ErrorRate
  pub is_statistically_significant : Bool
  pub p_value : ℕ
  pub confidence_interval : ℤ × ℤ
  pub recommendation : Recommendation

-- The configuration never changes, and is a parameter of the methods. The registry is shared with
-- other parts of the program; it is here because the manager's methods change it.
pub record AbTestDeploymentManager : Type 0 where
  pub registry : ModelRegistry
  pub traffic_splitter : TrafficSplitter
  pub phase : DeploymentPhase
  pub phase_start_time : Option ℕ
  pub current_traffic_pct : ℕ
  pub champion_metrics : MetricsLog
  pub challenger_metrics : MetricsLog

-- A method body inside a `try`: none is an exception, and what was assigned before stays.
abbrev pub Action : Type 0 → Type 0
Action A = AbTestDeploymentManager → Option A × AbTestDeploymentManager

infixl 5 ◌>>=◌ ◌>>◌
abbrev pub ◌>>=◌ : {A B : Type 0} → Action A → (A → Action B) → Action B
◌>>=◌ m f s = let (o, t) = m s in elim o [ Option.none ↦ (Option.none, t) | Option.some a ↦ f a t ]

abbrev pub ◌>>◌ : {A B : Type 0} → Action A → Action B → Action B
m >> k = m >>= λ _. k
