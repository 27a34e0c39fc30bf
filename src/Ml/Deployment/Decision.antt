-- ===== src/Ml/Deployment/Decision.antt =====
-- When a challenger is recommended (services/ml-pipeline/ab_testing/deployment_manager.py).
use vox_guard.Base.{
  ℕ, ◌+◌, ◌≤◌, ◌<◌, ◌≡◌, ◌↔◌, Bool, false, ◌&&◌, ◌||◌, List, [], ◌∷◌, arith, ltb, length,
  length-append,
}
use vox_guard.Ml.Deployment.State.{
  AbTestConfig, promote, ErrorRate, MetricsLog, AbTestDeploymentManager,
}
use vox_guard.Ml.Deployment.Evaluation.{
  Statistics, Prediction, record_prediction, exceeds, error_rate, mean_latency,
  collect_and_analyze_metrics,
}
use vox_guard.Ml.Deployment.Manager.{record_all}

-- One of the enabled triggers of a rollback has gone off.
abbrev pub triggers_rollback : AbTestConfig → ℕ → ℕ → ErrorRate → Bool
triggers_rollback config latency auc errors =
    config.enable_auto_rollback
    && ((config.rollback_on_latency && ltb config.max_latency_ms latency)
        || (config.rollback_on_accuracy && ltb auc config.min_auc_score)
        || exceeds errors config.max_error_rate)

-- A challenger is recommended for promotion exactly if no enabled trigger of a rollback has gone
-- off, both models have at least the configured number of predictions, the p-value is below what
-- the confidence level leaves, and the effect asked for is at most 0.02, the difference of the two
-- constant scores.
pub collect_and_analyze_metrics-promote :
    (stats : Statistics) (config : AbTestConfig) (m : AbTestDeploymentManager)
    → let a = m.champion_metrics.predictions in
      let b = m.challenger_metrics.predictions in
      ((collect_and_analyze_metrics stats config m).recommendation ≡ promote) ↔ (
        (triggers_rollback config
            (mean_latency stats m.challenger_metrics.latencies)
            9000
            (error_rate m.challenger_metrics)
          ≡ false)
        × (config.min_samples_per_model ≤ length a)
        × (config.min_samples_per_model ≤ length b)
        × (stats.ttest_p_value a b + config.confidence_level < 10000)
        × (config.min_effect_size ≤ 200))
unfolding collect_and_analyze_metrics
collect_and_analyze_metrics-promote stats config m = (λ h. ground arith, λ h. ground arith)

-- The three lists of a log have the same length.
abbrev pub IsEven : MetricsLog → Type 0
IsEven l = (length l.predictions ≡ length l.latencies) × (length l.errors ≡ length l.latencies)

abbrev pub AreEven : AbTestDeploymentManager → Type 0
AreEven m = IsEven m.champion_metrics × IsEven m.challenger_metrics

record_prediction-AreEven :
    (p : Prediction) (m : AbTestDeploymentManager) → AreEven m → AreEven (record_prediction p m)
unfolding record_prediction
record_prediction-AreEven p m h = grind (arith, length-append)

record_prediction-counts :
    (p : Prediction) (m : AbTestDeploymentManager)
    → length (record_prediction p m).champion_metrics.latencies
        + length (record_prediction p m).challenger_metrics.latencies
      ≡ length m.champion_metrics.latencies + length m.challenger_metrics.latencies + 1
unfolding record_prediction
record_prediction-counts p m = grind (arith, length-append)

-- Recording predictions keeps the three lists of each log equally long, and adds one entry for
-- each prediction to the one log or the other.
pub record_all-AreEven :
    (ps : List Prediction) (m : AbTestDeploymentManager)
    → AreEven m
    → AreEven (record_all ps m)
      × (length (record_all ps m).champion_metrics.latencies
            + length (record_all ps m).challenger_metrics.latencies
          ≡ length m.champion_metrics.latencies + length m.challenger_metrics.latencies + length ps)
unfolding record_all
record_all-AreEven [] m h = (h, omega arith)
record_all-AreEven (p ∷ ps) m h = ground (
  arith,
  record_prediction-counts p m,
  record_all-AreEven ps (record_prediction p m) (record_prediction-AreEven p m h),
)
