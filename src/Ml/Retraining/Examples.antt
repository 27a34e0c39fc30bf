-- ===== src/Ml/Retraining/Examples.antt =====
-- A run over data without fraud rows, and one that gets as far as the evaluation.
use vox_guard.Base.{ℕ, ◌+◌, ◌≤◌, ◌<◌, ◌%◌, ◌≡◌, refl, true, none, some, [], ◌∷◌}
use vox_guard.Base.Int.{pos}
use vox_guard.Base.Dict.{Dict}
use vox_guard.Ml.Registry.State.{ModelMetadata, ModelRegistry}
use vox_guard.Ml.Collector.Samples.{complete, sample_eq}
use vox_guard.Ml.Collector.Frames.{rows_where, drop_duplicates, dropna}
use vox_guard.Ml.Collector.Ops.{
  Merged, Sampling, collect_training_data, balance_dataset, validate_and_clean,
}
use vox_guard.Ml.Retraining.Calls.{binds}
use vox_guard.Ml.Retraining.State.{
  RetrainingConfig, type_error, collection_error, raised, new_orchestrator,
}
use vox_guard.Ml.Retraining.Steps.{
  Surroundings, require, collect_data, train_model, evaluate_model, handle_promotion, register,
}
use vox_guard.Ml.Retraining.Runs.{run_retraining, run_each}
use vox_guard.Ml.Retraining.Failure.{AllFail, run_each-AllFail}
use vox_guard.Ml.Retraining.Schedule.{next_run, wait_seconds, wait_seconds-next_run}

abbrev config : RetrainingConfig
config = record {
  min_samples_required = 1;
  min_auc_score = 8500;
  min_precision = 8000;
  min_recall = 7500;
  improvement_threshold = 200;
  auto_promote_champion = true;
}

abbrev trained_model : ModelMetadata
trained_model = record {
  model_id = "xgboost_v1";
  version = "1";
  created_at = "2026-02-01";
  algorithm = "xgboost";
  training_samples = 1000;
  auc_score = 9500;
  precision = 9000;
  recall = 9000;
  f1_score = 9000;
  accuracy = 9000;
  features = [];
  feature_importance = [];
  hyperparameters = [];
  status = "candidate";
  deployed_at = none;
  replaced_by = none;
  production_metrics = none;
}

abbrev no_models : ModelRegistry
no_models = record { index = record { models = []; champion = none }; index_file = none; disk = [] }

abbrev merged_row : ℕ → ℕ → Merged
merged_row aloc fraud = record {
  asr = some (pos 500000);
  aloc = some (pos aloc);
  overlap_ratio = some (pos 5000);
  distinct_a_count = some (pos 30000);
  call_rate = some (pos 10000);
  short_call_ratio = some (pos 2000);
  is_fraud = some (pos fraud);
}

abbrev keeping : Sampling
keeping = record { draw = λ n rows. none; shuffle = λ rows. rows }

abbrev scores : Dict ℕ
scores = ("auc", 9500) ∷ ("precision", 9000) ∷ ("recall", 9000) ∷ []

abbrev surroundings : ℕ → Surroundings
surroundings fraud = record {
  merged = some (
      (pos 0, merged_row 1 fraud) ∷ (pos 0, merged_row 2 fraud) ∷ (pos 0, merged_row 3 fraud) ∷ []);
  sampling = keeping;
  is_trained = true;
  stamp = "1";
  registry_path = "models/registry";
  metrics = scores;
  champion_auc = some 9000;
  registration = (".json", "models/registry/xgboost_v1/model.json", true, trained_model);
  date = "2026-02-01";
  start_time = 10;
  end_time = 20;
}

-- Why the first run fails, and why the second one does.
first_problem :
    (run_retraining config (surroundings 0) (new_orchestrator no_models)).0.error_message
    ≡ some collection_error
unfolding run_retraining new_orchestrator collect_training_data collect_data balance_dataset
    rows_where validate_and_clean drop_duplicates dropna complete sample_eq
first_problem = refl

second_problem :
    (run_retraining config (surroundings 10000) (new_orchestrator no_models)).0.error_message
    ≡ some type_error
unfolding run_retraining new_orchestrator collect_training_data collect_data balance_dataset
    rows_where validate_and_clean drop_duplicates dropna complete require train_model evaluate_model
    sample_eq
second_problem = refl

run_each-AllFail_example :
    AllFail
      (new_orchestrator no_models)
      2
      (run_each config (surroundings 0 ∷ surroundings 10000 ∷ []) (new_orchestrator no_models))
unfolding new_orchestrator
run_each-AllFail_example =
    run_each-AllFail config (surroundings 0 ∷ surroundings 10000 ∷ []) (new_orchestrator no_models)
      refl

-- A promotion would raise.
refused :
    handle_promotion config (surroundings 10000) "xgboost_v1" true true (new_orchestrator no_models)
    ≡ (raised type_error, new_orchestrator no_models)
unfolding handle_promotion register binds require new_orchestrator
refused = refl

-- Half a second before two o'clock on the second day.
next : next_run 93599500000 ≡ 93600000000
unfolding next_run
next = refl

wait_seconds-next_run_example :
    (0 < wait_seconds 93599500000)
    × (wait_seconds 93599500000 ≤ 86400000000)
    × ((93599500000 + wait_seconds 93599500000) % 86400000000 ≡ 7200000000)
    × ((t : ℕ)
        → 93599500000 < t
        → t % 86400000000 ≡ 7200000000
        → 93599500000 + wait_seconds 93599500000 ≤ t)
wait_seconds-next_run_example = wait_seconds-next_run 93599500000
