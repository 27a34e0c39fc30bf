-- ===== src/Ml/Retraining/Runs.antt =====
-- `run_retraining` and `get_metrics` (services/ml-pipeline/retraining_orchestrator.py).
use vox_guard.Base.{
  ℕ, ◌+◌, String, Bool, true, false, Option, none, some, List, [], ◌∷◌, leb, length, if◌then◌else◌,
}
use vox_guard.Base.Dict.{Dict}
use vox_guard.Ml.Retraining.State.{
  RetrainingStatus, completed, failed, skipped, RetrainingConfig, Problem, insufficient_samples,
  still_in_progress, RetrainingResult, RetrainingOrchestrator, Outcome, returned, raised, Action,
  ◌>>=◌, ◌>>◌,
}
use vox_guard.Ml.Retraining.Steps.{
  Surroundings, require, collect_data, train_model, evaluate_model, check_quality_gates,
  handle_promotion,
}

unfoldable pub unsuccessful : RetrainingStatus → ℕ → ℕ → Problem → RetrainingResult
unsuccessful status start end problem = record {
  status = status;
  start_time = start;
  end_time = end;
  samples_collected = 0;
  fraud_samples = 0;
  non_fraud_samples = 0;
  model_id = none;
  model_path = none;
  metrics = [];
  passed_quality_gates = false;
  is_improvement = false;
  promoted_to_challenger = false;
  promoted_to_champion = false;
  error_message = some problem;
}

abbrev pub report :
    Surroundings → String × String → Dict ℕ → Bool × Bool → Bool × Bool → Action RetrainingResult
report s model metrics gates promoted o = (
  returned (record {
    status = completed;
    start_time = s.start_time;
    end_time = s.end_time;
    samples_collected = o.data_collector.total_records_collected;
    fraud_samples = o.data_collector.fraud_records;
    non_fraud_samples = o.data_collector.non_fraud_records;
    model_id = some model.0;
    model_path = some model.1;
    metrics = metrics;
    passed_quality_gates = gates.0;
    is_improvement = gates.1;
    promoted_to_challenger = promoted.0;
    promoted_to_champion = promoted.1;
    error_message = none;
  }),
  o,
)

-- What is in the `try`, up to the result.
unfoldable pub pipeline : RetrainingConfig → Surroundings → Action RetrainingResult
pipeline config s = do
  df ← collect_data s
  require (leb config.min_samples_required (length df))
      (insufficient_samples (length df) config.min_samples_required)
  model ← train_model s
  metrics ← evaluate_model s
  gates ← check_quality_gates config s metrics
  promoted ← handle_promotion config s model.0 gates.0 gates.1
  report s model metrics gates promoted

unfoldable pub begin_run : RetrainingOrchestrator → RetrainingOrchestrator
begin_run o = record o { is_running = true; total_runs = o.total_runs + 1 }

abbrev pub finished :
    RetrainingResult → RetrainingOrchestrator → RetrainingResult × RetrainingOrchestrator
finished result o = (
  result,
  record o { is_running = false; last_result = some result; last_run_time = some result.end_time },
)

-- The end of the `try`, the handler and the `finally`.
unfoldable pub end_run :
    Surroundings
    → Outcome RetrainingResult × RetrainingOrchestrator
    → RetrainingResult × RetrainingOrchestrator
unfolding unsuccessful
end_run s (returned result, o) =
    finished result (record o { successful_runs = o.successful_runs + 1 })
end_run s (raised problem, o) =
    finished (unsuccessful failed s.start_time s.end_time problem)
      (record o { failed_runs = o.failed_runs + 1 })

unfoldable pub run_retraining :
    RetrainingConfig
    → Surroundings
    → RetrainingOrchestrator
    → RetrainingResult × RetrainingOrchestrator
unfolding begin_run end_run pipeline unsuccessful
run_retraining config s o =
    if o.is_running
    then (unsuccessful skipped s.start_time s.start_time still_in_progress, o)
    else end_run s (pipeline config s (begin_run o))

-- One run after the other: the results and the state at the end.
unfoldable pub run_each :
    RetrainingConfig
    → List Surroundings
    → RetrainingOrchestrator
    → List RetrainingResult × RetrainingOrchestrator
run_each config [] o = ([], o)
run_each config (s ∷ ss) o =
    let (result, p) = run_retraining config s o in
    let (results, q) = run_each config ss p in (result ∷ results, q)

-- `get_metrics`: the success rate is the quotient of the first two counts, in percent.
pub record RunMetrics : Type 0 where
  pub total_runs : ℕ
  pub successful_runs : ℕ
  pub failed_runs : ℕ
  pub last_run_time : Option ℕ
  pub is_running : Bool

unfoldable pub get_metrics : RetrainingOrchestrator → RunMetrics
get_metrics o = record {
  total_runs = o.total_runs;
  successful_runs = o.successful_runs;
  failed_runs = o.failed_runs;
  last_run_time = o.last_run_time;
  is_running = o.is_running;
}
