-- ===== src/Ml/Deployment/Evaluation.antt =====
-- Metrics, significance and recommendation
-- (services/ml-pipeline/ab_testing/deployment_manager.py). The functions of numpy and scipy are
-- parameters.
use vox_guard.Base.{
  ℕ, ◌+◌, ◌*◌, max, Bool, false, List, [], ◌∷◌, ◌++◌, ◌&&◌, leb, ltb, length, count_if,
  if◌then◌else◌,
}
use vox_guard.Base.Int.{ℤ, pos}
use vox_guard.Ml.Deployment.State.{
  AbTestConfig, Recommendation, promote, continue, roll_back, MetricsLog, ErrorRate, AbTestMetrics,
  AbTestDeploymentManager,
}

-- `np.mean`, the p-value of `stats.ttest_ind`, and the interval around the difference of the means,
-- which needs `np.var` and `np.sqrt`.
pub record Statistics : Type 0 where
  pub mean : List ℕ → ℕ
  pub ttest_p_value : List ℕ → List ℕ → ℕ
  pub interval : List ℕ → List ℕ → ℤ × ℤ

-- One call of `record_prediction`.
pub record Prediction : Type 0 where
  pub is_champion : Bool
  pub latency_ms : ℕ
  pub prediction : ℕ
  pub had_error : Bool

unfoldable pub append_prediction : Prediction → MetricsLog → MetricsLog
append_prediction p l = record {
  latencies = l.latencies ++ p.latency_ms ∷ [];
  predictions = l.predictions ++ p.prediction ∷ [];
  errors = l.errors ++ (if p.had_error then 1 else 0) ∷ [];
}

unfoldable pub record_prediction : Prediction → AbTestDeploymentManager → AbTestDeploymentManager
unfolding append_prediction
record_prediction p m =
    if p.is_champion
    then record m { champion_metrics = append_prediction p m.champion_metrics }
    else record m { challenger_metrics = append_prediction p m.challenger_metrics }

-- `np.mean(xs) if len(xs) > 0 else 0.0`
unfoldable pub mean_latency : Statistics → List ℕ → ℕ
mean_latency stats [] = 0
mean_latency stats (x ∷ xs) = stats.mean (x ∷ xs)

abbrev pub is_positive : ℕ → Bool
is_positive n = ltb 0 n

unfoldable pub error_rate : MetricsLog → ErrorRate
error_rate l = record {
  errors = count_if is_positive l.errors;
  requests = max (length l.latencies) 1;
}

-- rate > limit
abbrev pub exceeds : ErrorRate → ℕ → Bool
exceeds r limit = ltb (limit * r.requests) (r.errors * 10000)

module _ (stats : Statistics) (config : AbTestConfig) where
  unfoldable pub test_statistical_significance : List ℕ → List ℕ → Bool × ℕ × (ℤ × ℤ)
  test_statistical_significance champion challenger =
      if ltb (length champion) config.min_samples_per_model
      then (false, 10000, (pos 0, pos 0))
      else if ltb (length challenger) config.min_samples_per_model
      then (false, 10000, (pos 0, pos 0))
      else (
        ltb (stats.ttest_p_value champion challenger + config.confidence_level) 10000,
        stats.ttest_p_value champion challenger,
        stats.interval champion challenger,
      )

  -- `auc_improvement >= min_effect_size`, with the champion's score on the other side.
  unfoldable pub recommend_unless_rollback : ℕ → ℕ → Bool → Recommendation
  recommend_unless_rollback champion_auc challenger_auc significant =
      if significant
      then if leb (champion_auc + config.min_effect_size) challenger_auc then promote else continue
      else continue

  unfoldable pub generate_recommendation :
      ℕ → ℕ → ℕ → ℕ → ErrorRate → ErrorRate → Bool → Recommendation
  unfolding recommend_unless_rollback
  generate_recommendation champion_latency challenger_latency champion_auc challenger_auc
        champion_errors challenger_errors significant =
      let others = recommend_unless_rollback champion_auc challenger_auc significant in
      if config.enable_auto_rollback
      then if config.rollback_on_latency && ltb config.max_latency_ms challenger_latency
        then roll_back
        else if config.rollback_on_accuracy && ltb challenger_auc config.min_auc_score
        then roll_back
        else if exceeds challenger_errors config.max_error_rate
        then roll_back
        else others
      else others

  -- The two scores are constants of the source.
  unfoldable pub collect_and_analyze_metrics : AbTestDeploymentManager → AbTestMetrics
  unfolding test_statistical_significance generate_recommendation mean_latency error_rate
  collect_and_analyze_metrics m =
      let (significant, p, interval) =
        test_statistical_significance m.champion_metrics.predictions
          m.challenger_metrics.predictions in
      record {
        champion_requests = length m.champion_metrics.latencies;
        challenger_requests = length m.challenger_metrics.latencies;
        champion_avg_latency_ms = mean_latency stats m.champion_metrics.latencies;
        challenger_avg_latency_ms = mean_latency stats m.challenger_metrics.latencies;
        champion_auc = 8800;
        challenger_auc = 9000;
        champion_error_rate = error_rate m.champion_metrics;
        challenger_error_rate = error_rate m.challenger_metrics;
        is_statistically_significant = significant;
        p_value = p;
        confidence_interval = interval;
        recommendation =
            generate_recommendation (mean_latency stats m.champion_metrics.latencies)
              (mean_latency stats m.challenger_metrics.latencies) 8800 9000
              (error_rate m.champion_metrics) (error_rate m.challenger_metrics) significant;
      }
