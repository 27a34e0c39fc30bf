-- ===== src/Inference/Engine.antt =====
-- `MaskingInferenceEngine` (services/sip-processor/app/inference/engine.py). Probabilities are in
-- units of 1/10000. The sums of the rules are exact; in floats, 0.5 + 0.2 + 0.1 + 0.1 comes out a
-- little less than 0.9, and every other sum compares with 0.7 and 0.9 as here.
use vox_guard.Base.{
  ℕ, ◌+◌, Bool, true, false, ◌&&◌, ◌||◌, Option, none, some, leb, ltb, min, if◌then◌else◌,
}
use vox_guard.Base.Int.{ℤ, pos, negsuc}
use vox_guard.Base.Dict.{Dict}
use vox_guard.Inference.Features.{CdrMetrics, MaskingFeatures, extract, extract_from_dict}
use vox_guard.Inference.Model.{
  Xgboost, ModelManager, new_model_manager, ModelFile, load, predict_with,
}

pub data Confidence : Type 0 where
  low medium high : Confidence

pub data RiskLevel : Type 0 where
  minimal low medium high critical : RiskLevel

pub data Method : Type 0 where
  xgboost rule_based : Method

pub record PredictionResult : Type 0 where
  pub is_masking : Bool
  pub probability : ℕ
  pub confidence : Confidence
  pub features_used : MaskingFeatures
  pub method : Method

unfoldable pub risk_level : PredictionResult → RiskLevel
risk_level r =
    if leb 9000 r.probability
    then RiskLevel.critical
    else if leb 7000 r.probability
    then RiskLevel.high
    else if leb 5000 r.probability
    then RiskLevel.medium
    else if leb 3000 r.probability
    then RiskLevel.low
    else RiskLevel.minimal

unfoldable pub get_confidence : ℕ → Confidence
get_confidence p =
    if ltb 9000 p || ltb p 1000
    then Confidence.high
    else if ltb 7000 p || ltb p 3000
    then Confidence.medium
    else Confidence.low

pub record Engine (M : Type 0) : Type 0 where
  pub threshold : ℕ
  pub model_manager : ModelManager M
  pub use_model : Bool

abbrev pub default_threshold : ℕ
default_threshold = 7000

-- The result, which `_predict_with_rules` and `_predict_with_model` build in the same way.
abbrev pub result_of : ℕ → MaskingFeatures → ℕ → Method → PredictionResult
result_of threshold features p method = record {
  is_masking = leb threshold p;
  probability = p;
  confidence = get_confidence p;
  features_used = features;
  method = method;
}

-- The five rules.
unfoldable pub rule_score : MaskingFeatures → ℕ
rule_score f =
    (if leb 5 f.distinct_a_count then 5000 else 0)
    + (if ltb 8000 f.overlap_ratio then 3000 else if ltb 5000 f.overlap_ratio then 1500 else 0)
    + (if ltb 0 f.cli_mismatch && leb 3 f.distinct_a_count then 2000 else 0)
    + (if ltb 20000 f.call_rate then 1000 else 0)
    + (if ltb f.asr 200000 && leb 4 f.distinct_a_count then 1000 else 0)

unfoldable pub predict_with_rules : ℕ → MaskingFeatures → PredictionResult
unfolding rule_score get_confidence
predict_with_rules threshold f = result_of threshold f (min (rule_score f) 10000) rule_based

abbrev pub predicted : ℕ → MaskingFeatures → Option ℕ → PredictionResult
predicted threshold f (some p) = result_of threshold f p xgboost
predicted threshold f none = predict_with_rules threshold f

-- `update_threshold`; false is the `ValueError`.
abbrev pub update_with : {M : Type 0} → Bool → ℕ → Engine M → Bool × Engine M
update_with true threshold e = (true, record e { threshold = threshold })
update_with false threshold e = (false, e)

unfoldable pub update_threshold : {M : Type 0} → ℤ → Engine M → Bool × Engine M
update_threshold (pos threshold) e = update_with (leb threshold 10000) threshold e
update_threshold (negsuc n) e = (false, e)

module _ {M : Type 0} (library : Xgboost M) where
  unfoldable pub predict_with_model : Engine M → MaskingFeatures → PredictionResult
  predict_with_model e f = predicted e.threshold f (predict_with library e.model_manager f)

  unfoldable pub predict_features : Engine M → MaskingFeatures → PredictionResult
  unfolding predict_with_model
  predict_features e f =
      if e.use_model then predict_with_model e f else predict_with_rules e.threshold f

  unfoldable pub predict : Engine M → CdrMetrics → Bool → ℕ → ℕ → PredictionResult
  predict e metrics cli_mismatch call_rate short_call_ratio =
      predict_features e (extract metrics cli_mismatch call_rate short_call_ratio)

  unfoldable pub predict_from_dict : Engine M → Dict ℕ → Dict ℕ → PredictionResult
  predict_from_dict e metrics_dict sip_info =
      predict_features e (extract_from_dict metrics_dict sip_info)

  -- `__init__`, with what the model file is like.
  unfoldable pub new_engine : ℕ → ModelFile M → Engine M
  new_engine threshold file =
      let (loaded, manager) = load library file new_model_manager in
      record { threshold = threshold; model_manager = manager; use_model = loaded }

  unfoldable pub reload_model : ModelFile M → Engine M → Bool × Engine M
  reload_model file e =
      let (loaded, manager) = load library file e.model_manager in
      (loaded, record e { model_manager = manager; use_model = loaded })
