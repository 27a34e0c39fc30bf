-- ===== src/Ml/Deployment/Examples.antt =====
-- A manager whose challenger is registered.
use vox_guard.Base.{
  ℕ, ◌+◌, ◌≤◌, ◌<◌, ◌≡◌, ◌↔◌, refl, String, true, false, none, some, List, [], ◌∷◌, arith, eq_iff,
}
use vox_guard.Base.Int.{pos}
use vox_guard.Ml.Registry.State.{ModelMetadata, ModelRegistry}
use vox_guard.Ml.Registry.Ops.{get_metadata}
use vox_guard.Ml.Registry.Soundness.{IsSound}
use vox_guard.Ml.Deployment.State.{DeploymentPhase, AbTestConfig, AbTestDeploymentManager, promote}
use vox_guard.Ml.Deployment.Evaluation.{
  Statistics, Prediction, collect_and_analyze_metrics, mean_latency, error_rate,
}
use vox_guard.Ml.Deployment.Manager.{no_log, promote_to_champion, run_gradual_rollout}
use vox_guard.Ml.Deployment.Frozen.{
  SameDeployment, start, ramp, rolling_back, run_commands, run_commands-SameDeployment,
  rollout_effect, run_gradual_rollout-effect, promote_to_champion-half_done,
}
use vox_guard.Ml.Deployment.Decision.{triggers_rollback, collect_and_analyze_metrics-promote}

abbrev config : AbTestConfig
config = record {
  champion_model_id = "a";
  challenger_model_id = "b";
  pilot_traffic = 500;
  ramp_up_step = 1000;
  ramp_up_duration_hours = 24;
  min_samples_per_model = 1;
  confidence_level = 9500;
  min_effect_size = 200;
  max_latency_ms = 20000;
  min_auc_score = 8500;
  max_error_rate = 100;
  enable_auto_rollback = true;
  rollback_on_latency = true;
  rollback_on_accuracy = true;
}

-- The mean is the first value, and all differences are significant.
abbrev head_or_zero : List ℕ → ℕ
head_or_zero [] = 0
head_or_zero (x ∷ _) = x

abbrev stats : Statistics
stats = record {
  mean = head_or_zero;
  ttest_p_value = λ xs ys. 1;
  interval = λ xs ys. (pos 0, pos 0);
}

abbrev metadata : String → ModelMetadata
metadata status = record {
  model_id = "b";
  version = "1";
  created_at = "2026-02-01";
  algorithm = "xgboost";
  training_samples = 1000;
  auc_score = 9000;
  precision = 9000;
  recall = 9000;
  f1_score = 9000;
  accuracy = 9000;
  features = [];
  feature_importance = [];
  hyperparameters = [];
  status = status;
  deployed_at = none;
  replaced_by = none;
  production_metrics = none;
}

abbrev registry : ModelRegistry
registry = record {
  index = record {
    models =
        (
          "b",
          record {
            version = "1";
            created_at = "2026-02-01";
            status = "candidate";
            auc_score = 9000;
            model_path = "m.json";
            deployed_at = none;
          },
        )
        ∷ [];
    champion = none;
  };
  index_file = none;
  disk = ("b", record { suffixes = ".json" ∷ []; metadata = some (metadata "candidate") }) ∷ [];
}

registry-IsSound : IsSound registry
unfolding get_metadata
registry-IsSound = record {
  in_step = λ k e at. ground (arith, eq_iff "b" k);
  unique = λ k e at is. ground (arith, eq_iff "b" k, eq_iff "candidate" "champion");
  listed = λ c e. ground arith;
}

abbrev manager : AbTestDeploymentManager
manager = record {
  registry = registry;
  traffic_splitter = record {
    config = record { model_a_traffic = 9500; model_b_traffic = 500 };
    model_a_count = 0;
    model_b_count = 0;
  };
  phase = DeploymentPhase.inactive;
  phase_start_time = none;
  current_traffic_pct = 0;
  champion_metrics = no_log;
  challenger_metrics = no_log;
}

abbrev predictions : List Prediction
predictions =
    record { is_champion = true; latency_ms = 9000; prediction = 100; had_error = false }
    ∷ record { is_champion = false; latency_ms = 8000; prediction = 200; had_error = false }
    ∷ []

run_commands-SameDeployment_example :
    SameDeployment manager
      (run_commands stats config (start 1 ∷ ramp 1000 2 ∷ rolling_back ∷ []) manager)
run_commands-SameDeployment_example =
    run_commands-SameDeployment stats config (start 1 ∷ ramp 1000 2 ∷ rolling_back ∷ []) manager

run_gradual_rollout-effect_example :
    run_gradual_rollout stats config 1 2 3 4 "2026-02-04" predictions [] [] [] manager
    ≡ rollout_effect stats config "2026-02-04" predictions [] [] [] manager
run_gradual_rollout-effect_example =
    run_gradual_rollout-effect stats config 1 2 3 4 "2026-02-04" predictions [] [] [] manager

promote_to_champion-half_done_example :
    let (done, s) = promote_to_champion config "2026-02-04" manager in
    (done ≡ false) × SameDeployment manager s × (s.registry.index.champion ≡ some "b")
promote_to_champion-half_done_example =
    promote_to_champion-half_done config "2026-02-04" manager registry-IsSound refl refl

collect_and_analyze_metrics-promote_example :
    ((collect_and_analyze_metrics stats config manager).recommendation ≡ promote) ↔ (
      (triggers_rollback config (mean_latency stats []) 9000 (error_rate no_log) ≡ false)
      × (1 ≤ 0)
      × (1 ≤ 0)
      × (1 + 9500 < 10000)
      × (200 ≤ 200))
collect_and_analyze_metrics-promote_example =
    collect_and_analyze_metrics-promote stats config manager
