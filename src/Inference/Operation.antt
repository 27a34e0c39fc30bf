-- ===== src/Inference/Operation.antt =====
-- The engine against what it promises: a threshold, and a booster that is asked if there is one
-- (services/sip-processor/app/inference/engine.py).
use mathlib.Core.Path.{ap₂}
use vox_guard.Base.{
  ℕ, ◌≡◌, refl, Bool, true, false, Option, none, some, List, [], ◌∷◌, leb, if◌then◌else◌, ap, ◌∙◌,
}
use vox_guard.Base.Int.{ℤ, pos, negsuc}
use vox_guard.Base.Options.{◌>>=◌}
use vox_guard.Inference.Features.{MaskingFeatures}
use vox_guard.Inference.Model.{
  Xgboost, ModelManager, ModelFile, missing, broken, loadable, load, load_if, unload, predict_with,
  predict_loaded,
}
use vox_guard.Inference.Engine.{
  Engine, PredictionResult, predicted, update_with, update_threshold, predict_features,
  predict_with_rules, new_engine, reload_model,
}

-- What can happen to an engine; the model may also be unloaded behind its back.
pub data Command (M : Type 0) : Type 0 where
  updating : ℤ → Command M
  reloading : ModelFile M → Command M
  unloading : Command M

-- The specification: the threshold, the booster in use, and the one that the manager holds.
pub record View (M : Type 0) : Type 0 where
  pub threshold : ℕ
  pub booster : Option M
  pub loaded : Option M

module _ {M : Type 0} (library : Xgboost M) where
  abbrev pub run_command : Command M → Engine M → Engine M
  run_command (updating threshold) e = (update_threshold threshold e).1
  run_command (reloading file) e = (reload_model library file e).1
  run_command unloading e = record e { model_manager = unload e.model_manager }

  unfoldable pub run_commands : List (Command M) → Engine M → Engine M
  run_commands [] e = e
  run_commands (c ∷ cs) e = run_commands cs (run_command c e)

  abbrev pub booster_in : ModelFile M → Option M
  booster_in missing = none
  booster_in broken = none
  booster_in (loadable booster) = some booster

  -- The booster that is held after a reload: a missing file leaves the one of before.
  abbrev pub loaded_from : ModelFile M → Option M → Option M
  loaded_from missing old = old
  loaded_from broken old = none
  loaded_from (loadable booster) old = some booster

  abbrev pub accepted : ℕ → ℤ → ℕ
  accepted old (pos threshold) = if leb threshold 10000 then threshold else old
  accepted old (negsuc n) = old

  abbrev pub view_command : Command M → View M → View M
  view_command (updating threshold) v = record v { threshold = accepted v.threshold threshold }
  view_command (reloading file) v = record v {
    booster = if library.is_available then booster_in file else none;
    loaded = if library.is_available then loaded_from file v.loaded else v.loaded;
  }
  view_command unloading v = record v { booster = none; loaded = none }

  unfoldable pub view_commands : List (Command M) → View M → View M
  view_commands [] v = v
  view_commands (c ∷ cs) v = view_commands cs (view_command c v)

  abbrev pub view_predict : View M → MaskingFeatures → PredictionResult
  view_predict v f = predicted v.threshold f (v.booster >>= λ b. library.predicts b f)

  -- The booster that a prediction asks.
  abbrev in_use : Bool → Bool → Option M → Option M
  in_use true true model = model
  in_use true false model = none
  in_use false was_loaded model = none

  abbrev view_of : Engine M → View M
  view_of e = record {
    threshold = e.threshold;
    booster = in_use e.use_model e.model_manager.was_loaded e.model_manager.model;
    loaded = e.model_manager.model;
  }

  predict_in_use :
      (threshold : ℕ) (use_model was_loaded : Bool) (model : Option M) (f : MaskingFeatures)
      → (if use_model
          then predicted threshold f (predict_loaded library was_loaded model f)
          else predict_with_rules threshold f)
        ≡ predicted threshold f (in_use use_model was_loaded model >>= λ b. library.predicts b f)
  predict_in_use threshold true true (some b) f = refl
  predict_in_use threshold true true none f = refl
  predict_in_use threshold true false model f = refl
  predict_in_use threshold false was_loaded model f = refl

  predict_features-view :
      (e : Engine M) (f : MaskingFeatures)
      → predict_features library e f ≡ view_predict (view_of e) f
  unfolding predict_features predict_with
  predict_features-view e f =
      predict_in_use e.threshold e.use_model e.model_manager.was_loaded e.model_manager.model f

  load-in_use :
      (available : Bool) (file : ModelFile M) (m : ModelManager M)
      → in_use
          (load_if library available file m).0
          (load_if library available file m).1.was_loaded
          (load_if library available file m).1.model
        ≡ (if available then booster_in file else none)
  load-in_use false file m = refl
  load-in_use true missing m = refl
  load-in_use true broken m = refl
  load-in_use true (loadable b) m = refl

  load-loaded :
      (available : Bool) (file : ModelFile M) (m : ModelManager M)
      → (load_if library available file m).1.model
        ≡ (if available then loaded_from file m.model else m.model)
  load-loaded false file m = refl
  load-loaded true missing m = refl
  load-loaded true broken m = refl
  load-loaded true (loadable b) m = refl

  unused : (use_model : Bool) (model : Option M) → in_use use_model false model ≡ none
  unused true model = refl
  unused false model = refl

  abbrev with_boosters : ℕ → Option M → Option M → View M
  with_boosters threshold booster loaded = record {
    threshold = threshold;
    booster = booster;
    loaded = loaded;
  }

  update-view :
      (b : Bool) (threshold : ℕ) (e : Engine M)
      → view_of (update_with b threshold e).1
        ≡ record (view_of e) { threshold = if b then threshold else e.threshold }
  update-view true threshold e = refl
  update-view false threshold e = refl

  run_command-view :
      (c : Command M) (e : Engine M) → view_of (run_command c e) ≡ view_command c (view_of e)
  unfolding update_threshold reload_model load unload
  run_command-view (updating (pos t)) e = update-view (leb t 10000) t e
  run_command-view (updating (negsuc n)) e = refl
  run_command-view (reloading file) e =
      ap₂ (with_boosters e.threshold) (load-in_use library.is_available file e.model_manager)
        (load-loaded library.is_available file e.model_manager)
  run_command-view unloading e =
      ap (λ b. record (view_of e) { booster = b; loaded = none }) (unused e.use_model none)

  run_commands-view :
      (cs : List (Command M)) (e : Engine M)
      → view_of (run_commands cs e) ≡ view_commands cs (view_of e)
  unfolding run_commands view_commands
  run_commands-view [] e = refl
  run_commands-view (c ∷ cs) e =
      run_commands-view cs (run_command c e) ∙ ap (view_commands cs) (run_command-view c e)

  -- What an engine that starts with this file promises.
  abbrev pub new_view : ℕ → ModelFile M → View M
  new_view threshold file = record {
    threshold = threshold;
    booster = if library.is_available then booster_in file else none;
    loaded = if library.is_available then loaded_from file none else none;
  }

  new_engine-view :
      (threshold : ℕ) (file : ModelFile M)
      → view_of (new_engine library threshold file) ≡ new_view threshold file
  unfolding new_engine load
  new_engine-view threshold file =
      ap₂ (with_boosters threshold) (load-in_use library.is_available file _)
        (load-loaded library.is_available file _)

  -- After any updates, reloads and unloads, an engine predicts as its specification does: with the
  -- booster of the last reload, unless that failed or the model has been unloaded since; with the
  -- last threshold that was in range; and with the rules if there is no booster or it raises. Its
  -- manager holds the booster that the specification says: a file that is missing leaves the old one
  -- loaded, but not in use.
  pub predict_features-view_commands :
      (threshold : ℕ) (file : ModelFile M) (cs : List (Command M)) (f : MaskingFeatures)
      → (predict_features library (run_commands cs (new_engine library threshold file)) f
          ≡ view_predict (view_commands cs (new_view threshold file)) f)
        × ((run_commands cs (new_engine library threshold file)).model_manager.model
            ≡ (view_commands cs (new_view threshold file)).loaded)
  predict_features-view_commands threshold file cs f =
      let viewed =
        run_commands-view cs (new_engine library threshold file)
        ∙ ap (view_commands cs) (new_engine-view threshold file) in
      (
        predict_features-view (run_commands cs (new_engine library threshold file)) f
            ∙ ap (λ v. view_predict v f) viewed,
        ap (λ v. v.loaded) viewed,
      )
