-- ===== src/Ml/Retraining/State.antt =====
-- The state of `RetrainingOrchestrator` (services/ml-pipeline/retraining_orchestrator.py). Scores
-- are in units of 1/10000.
use vox_guard.Base.{ℕ, String, Bool, false, Option, none}
use vox_guard.Base.Dict.{Dict}
use vox_guard.Ml.Registry.State.{ModelRegistry}
use vox_guard.Ml.Collector.Ops.{DataCollector, new_collector}

pub data RetrainingStatus : Type 0 where
  pending running completed failed skipped : RetrainingStatus

-- What the methods read of it.
pub record RetrainingConfig : Type 0 where
  pub min_samples_required : ℕ
  pub min_auc_score : ℕ
  pub min_precision : ℕ
  pub min_recall : ℕ
  pub improvement_threshold : ℕ
  pub auto_promote_champion : Bool

-- The exceptions, and the message of a run that is skipped.
pub data Problem : Type 0 where
  insufficient_samples : ℕ → ℕ → Problem
  still_in_progress collection_error training_error type_error attribute_error registry_error :
      Problem

pub record RetrainingResult : Type 0 where
  pub status : RetrainingStatus
  pub start_time : ℕ
  pub end_time : ℕ
  pub samples_collected : ℕ
  pub fraud_samples : ℕ
  pub non_fraud_samples : ℕ
  pub model_id : Option String
  pub model_path : Option String
  pub metrics : Dict ℕ
  pub passed_quality_gates : Bool
  pub is_improvement : Bool
  pub promoted_to_challenger : Bool
  pub promoted_to_champion : Bool
  pub error_message : Option Problem

pub record RetrainingOrchestrator : Type 0 where
  pub data_collector : DataCollector
  pub model_registry : ModelRegistry
  pub is_running : Bool
  pub last_run_time : Option ℕ
  pub last_result : Option RetrainingResult
  pub total_runs : ℕ
  pub successful_runs : ℕ
  pub failed_runs : ℕ

unfoldable pub new_orchestrator : ModelRegistry → RetrainingOrchestrator
new_orchestrator registry = record {
  data_collector = new_collector;
  model_registry = registry;
  is_running = false;
  last_run_time = none;
  last_result = none;
  total_runs = 0;
  successful_runs = 0;
  failed_runs = 0;
}

-- A step returns a value or raises; what it has changed stays changed.
pub data Outcome (A : Type 0) : Type 0 where
  returned : A → Outcome A
  raised : Problem → Outcome A

abbrev pub Action : Type 0 → Type 0
Action A = RetrainingOrchestrator → Outcome A × RetrainingOrchestrator

abbrev pub pure : {A : Type 0} → A → Action A
pure a o = (returned a, o)

abbrev pub raise : {A : Type 0} → Problem → Action A
raise p o = (raised p, o)

abbrev pub and_then :
    {A B : Type 0}
    → (A → Action B)
    → Outcome A × RetrainingOrchestrator
    → Outcome B × RetrainingOrchestrator
and_then f (returned a, o) = f a o
and_then f (raised p, o) = (raised p, o)

infixl 5 ◌>>=◌ ◌>>◌
abbrev pub ◌>>=◌ : {A B : Type 0} → Action A → (A → Action B) → Action B
◌>>=◌ m f o = and_then f (m o)

abbrev pub ◌>>◌ : {A B : Type 0} → Action A → Action B → Action B
m >> k = m >>= λ _. k
