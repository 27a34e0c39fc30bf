-- ===== src/Ml/Registry/Examples.antt =====
-- A registry with a champion and two candidates.
use vox_guard.Base.{◌≡◌, refl, String, true, none, some, [], ◌∷◌, arith, eq_iff}
use vox_guard.Ml.Registry.State.{ModelMetadata, IndexEntry, ModelDir, ModelRegistry}
use vox_guard.Ml.Registry.Ops.{get_metadata, promote_to_champion}
use vox_guard.Ml.Registry.Soundness.{IsSound}
use vox_guard.Ml.Registry.Champion.{Promotes, promote_to_champion-Promotes}

abbrev metadata : String → String → ModelMetadata
metadata id status = record {
  model_id = id;
  version = "1";
  created_at = "2026-02-01";
  algorithm = "xgboost";
  training_samples = 1000;
  auc_score = 9000;
  precision = 9000;
  recall = 9000;
  f1_score = 9000;
  accuracy = 9000;
  features = [];
  feature_importance = [];
  hyperparameters = [];
  status = status;
  deployed_at = none;
  replaced_by = none;
  production_metrics = none;
}

abbrev indexed : String → IndexEntry
indexed status = record {
  version = "1";
  created_at = "2026-02-01";
  status = status;
  auc_score = 9000;
  model_path = "m.json";
  deployed_at = none;
}

abbrev stored : String → String → ModelDir
stored id status = record { suffixes = ".json" ∷ []; metadata = some (metadata id status) }

abbrev registry : ModelRegistry
registry = record {
  index = record {
    models = ("a", indexed "champion") ∷ ("b", indexed "candidate") ∷ [];
    champion = some "a";
  };
  index_file = none;
  disk = ("a", stored "a" "champion") ∷ ("b", stored "b" "candidate") ∷ [];
}

registry-IsSound : IsSound registry
unfolding get_metadata
registry-IsSound = record {
  in_step = λ k e at. ground (arith, eq_iff "a" k, eq_iff "b" k);
  unique = λ k e at is. ground (arith, eq_iff "a" k, eq_iff "b" k, eq_iff "candidate" "champion");
  listed = λ c e. ground (arith, eq_iff "a" c, eq_iff c "", eq_iff "a" "");
}

promote_to_champion-Promotes_example :
    (s : ModelRegistry) × (promote_to_champion "2026-02-04" "b" registry ≡ (some true, s))
    × Promotes "2026-02-04" "b" registry s
promote_to_champion-Promotes_example =
    promote_to_champion-Promotes "2026-02-04" "b" registry registry-IsSound refl refl
