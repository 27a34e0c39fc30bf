-- ===== src/Ml/Retraining/Steps.antt =====
-- The five steps of a run (services/ml-pipeline/retraining_orchestrator.py).
use Prim.Native.String.{◌++◌ as append_str}
use vox_guard.Base.{
  ℕ, ◌+◌, String, Bool, true, false, ◌&&◌, Option, none, some, List, [], ◌∷◌, leb, if◌then◌else◌,
  any, str_eq,
}
use vox_guard.Base.Int.{ℤ}
use vox_guard.Base.Dict.{Dict, lookup}
use vox_guard.Ml.Registry.Ops
use vox_guard.Ml.Registry.Maintenance.{get_champion}
use vox_guard.Ml.Registry.State.{ModelMetadata, ModelRegistry}
use vox_guard.Ml.Deployment.Manager.{registry_attributes}
use vox_guard.Ml.Collector.Samples.{Sample}
use vox_guard.Ml.Collector.Ops.{
  Merged, Sampling, DataCollector, connect, close, collect_training_data,
}
use vox_guard.Ml.Retraining.Calls.{binds, train_signature, evaluate_signature, register_signature}
use vox_guard.Ml.Retraining.State.{
  RetrainingConfig, Problem, collection_error, training_error, type_error, attribute_error,
  registry_error, RetrainingOrchestrator, Outcome, returned, raised, Action, pure, raise, ◌>>=◌,
  ◌>>◌,
}

-- What a run meets: the rows of the databases, the sampling of pandas, whether the training by
-- xgboost succeeds, the time stamp of the model, the readings of the clock, and what the calls that
-- Python refuses would have given. `registration` has the suffix and the target of the model file
-- and whether it is there, as the registry's method takes them.
pub record Surroundings : Type 0 where
  pub merged : Option (List (ℤ × Merged))
  pub sampling : Sampling
  pub is_trained : Bool
  pub stamp : String
  pub registry_path : String
  pub metrics : Dict ℕ
  pub champion_auc : Option ℕ
  pub registration : String × String × Bool × ModelMetadata
  pub date : String
  pub start_time : ℕ
  pub end_time : ℕ

unfoldable pub require : Bool → Problem → Action (Unit {0})
require true p = pure tt
require false p = raise p

-- A method of another object is looked up among the names of its class.
unfoldable pub has_attribute : List String → String → Bool
has_attribute names name = any (str_eq name) names

abbrev pub gathered :
    RetrainingOrchestrator
    → Option (List Sample) × DataCollector
    → Outcome (List Sample) × RetrainingOrchestrator
gathered o (none, c) = (raised collection_error, record o { data_collector = close c })
gathered o (some df, c) = (returned df, record o { data_collector = close c })

-- `_collect_data`
unfoldable pub collect_data : Surroundings → Action (List Sample)
collect_data s o = gathered o (collect_training_data s.sampling s.merged (connect o.data_collector))

-- `_train_model`: the identifier and the path; nothing is saved there.
unfoldable pub train_model : Surroundings → Action (String × String)
unfolding require binds
train_model s = do
  require (binds train_signature 2 []) type_error
  require s.is_trained training_error
  let model_id = append_str "xgboost_v" s.stamp
  pure (model_id, append_str s.registry_path (append_str "/" (append_str model_id ".json")))

-- `_evaluate_model`
unfoldable pub evaluate_model : Surroundings → Action (Dict ℕ)
unfolding require binds
evaluate_model s = do require (binds evaluate_signature 3 []) type_error; pure s.metrics

abbrev pub get_or_0 : Option ℕ → ℕ
get_or_0 none = 0
get_or_0 (some v) = v

abbrev pub score : String → Dict ℕ → ℕ
score name metrics = get_or_0 (lookup name metrics)

unfoldable pub passes_gates : RetrainingConfig → Dict ℕ → Bool
passes_gates config metrics =
    leb config.min_auc_score (score "auc" metrics)
    && leb config.min_precision (score "precision" metrics)
    && leb config.min_recall (score "recall" metrics)

abbrev pub improves : RetrainingConfig → Dict ℕ → Option ℕ → Bool
improves config metrics none = false
improves config metrics (some champion_auc) =
    leb (champion_auc + config.improvement_threshold) (score "auc" metrics)

-- The registry has no method of the name that is called if there is a champion.
unfoldable pub compare_with :
    RetrainingConfig → Surroundings → Dict ℕ → Option (String × String) → Action Bool
unfolding require has_attribute
compare_with config s metrics none = pure (passes_gates config metrics)
compare_with config s metrics (some champion) = do
  require (has_attribute registry_attributes "get_model_metadata") attribute_error
  pure (improves config metrics s.champion_auc)

-- `_check_quality_gates`
unfoldable pub check_quality_gates : RetrainingConfig → Surroundings → Dict ℕ → Action (Bool × Bool)
check_quality_gates config s metrics o =
    (compare_with config s metrics (get_champion o.model_registry) >>= λ is_improvement.
    pure (passes_gates config metrics, is_improvement))
      o

-- A call of the registry; none is an exception of it.
abbrev pub in_registry :
    {A : Type 0}
    → RetrainingOrchestrator
    → Option A × ModelRegistry
    → Outcome (Unit {0}) × RetrainingOrchestrator
in_registry o (none, r) = (raised registry_error, record o { model_registry = r })
in_registry o (some _, r) = (returned tt, record o { model_registry = r })

-- `register_model(model_id=..., model_path=..., metadata=...)`, and, if the call were accepted, the
-- registration that it asks for.
unfoldable pub register : Surroundings → Action (Unit {0})
unfolding require binds
register s = do
  require (binds register_signature 0 ("model_id" ∷ "model_path" ∷ "metadata" ∷ [])) type_error
  (λ o.
      let (suffix, path, found, metadata) = s.registration in
      in_registry o (Ops.register_model suffix path found metadata o.model_registry))

unfoldable pub auto_promote : RetrainingConfig → Surroundings → String → Action (Bool × Bool)
auto_promote config s model_id =
    if config.auto_promote_champion
    then (do
      (λ o. in_registry o (Ops.promote_to_champion s.date model_id o.model_registry))
      pure (true, true))
    else pure (true, false)

-- `_handle_promotion`
unfoldable pub handle_promotion :
    RetrainingConfig → Surroundings → String → Bool → Bool → Action (Bool × Bool)
unfolding register require has_attribute
handle_promotion config s model_id passed_gates is_improvement = do
  register s
  (if passed_gates && is_improvement
      then (do
        require (has_attribute registry_attributes "set_challenger") attribute_error
        auto_promote config s model_id)
      else pure (false, false))
