-- ===== src/Inference/Model.antt =====
-- `ModelManager` (services/sip-processor/app/inference/model.py). A booster of xgboost is a
-- parameter, as are its loading and its predictions.
use vox_guard.Base.{ℕ, Bool, true, false, Option, none, some}
use vox_guard.Inference.Features.{MaskingFeatures}

-- `predicts` is the probability that a booster gives, none an exception.
pub record Xgboost (M : Type 0) : Type 0 where
  pub is_available : Bool
  pub predicts : M → MaskingFeatures → Option ℕ

pub record ModelManager (M : Type 0) : Type 0 where
  pub model : Option M
  pub was_loaded : Bool

abbrev pub new_model_manager : {M : Type 0} → ModelManager M
new_model_manager = record { model = none; was_loaded = false }

-- The file when it is read: it is not there, it makes the loading raise, or it is a booster.
pub data ModelFile (M : Type 0) : Type 0 where
  missing broken : ModelFile M
  loadable : M → ModelFile M

module _ {M : Type 0} (xgboost : Xgboost M) where
  abbrev pub load_file : ModelFile M → ModelManager M → Bool × ModelManager M
  load_file missing m = (false, m)
  load_file broken m = (false, record { model = none; was_loaded = false })
  load_file (loadable booster) m = (true, record { model = some booster; was_loaded = true })

  abbrev pub load_if : Bool → ModelFile M → ModelManager M → Bool × ModelManager M
  load_if false file m = (false, m)
  load_if true file m = load_file file m

  unfoldable pub load : ModelFile M → ModelManager M → Bool × ModelManager M
  load file m = load_if xgboost.is_available file m

  abbrev pub predict_loaded : Bool → Option M → MaskingFeatures → Option ℕ
  predict_loaded true (some booster) features = xgboost.predicts booster features
  predict_loaded true none features = none
  predict_loaded false model features = none

  -- None is an exception, also the one for a model that is not loaded.
  unfoldable pub predict_with : ModelManager M → MaskingFeatures → Option ℕ
  predict_with m features = predict_loaded m.was_loaded m.model features

unfoldable pub unload : {M : Type 0} → ModelManager M → ModelManager M
unload m = record { model = none; was_loaded = false }
