-- ===== src/Ml/Registry/Maintenance.antt =====
-- Serving, comparing, archiving and deleting models (services/ml-pipeline/model_registry.py).
use vox_guard.Base.{ℕ, String, Bool, true, false, Option, none, some, ltb, if◌then◌else◌, str_eq}
use vox_guard.Base.Int.{ℤ, sub_ℕ}
use vox_guard.Base.Dict.{contains, erase}
use vox_guard.Ml.Registry.State.{ModelMetadata, ModelRegistry, Action, pure, ◌>>◌}
use vox_guard.Ml.Registry.Ops.{save_index, get_model_path, get_metadata, update_metadata}

abbrev pub with_path : String → Option String → Option (String × String)
with_path champion_id none = none
with_path champion_id (some suffix) = some (champion_id, suffix)

abbrev pub champion_path : Option String → ModelRegistry → Option (String × String)
champion_path none r = none
champion_path (some champion_id) r =
    if str_eq champion_id "" then none else with_path champion_id (get_model_path champion_id r)

unfoldable pub get_champion : ModelRegistry → Option (String × String)
get_champion r = champion_path r.index.champion r

pub record Scores : Type 0 where
  pub id : String
  pub auc : ℕ
  pub precision : ℕ
  pub recall : ℕ
  pub f1 : ℕ

-- The dict that `compare_models` returns; the differences are under `delta` there.
pub record Comparison : Type 0 where
  pub model_a : Scores
  pub model_b : Scores
  pub delta_auc : ℤ
  pub delta_precision : ℤ
  pub delta_recall : ℤ
  pub delta_f1 : ℤ
  pub winner : String

abbrev pub scores : String → ModelMetadata → Scores
scores id m = record {
  id = id;
  auc = m.auc_score;
  precision = m.precision;
  recall = m.recall;
  f1 = m.f1_score;
}

abbrev pub compare_found :
    String → String → Option ModelMetadata → Option ModelMetadata → Option Comparison
compare_found a b (some m) (some n) = some (record {
  model_a = scores a m;
  model_b = scores b n;
  delta_auc = sub_ℕ n.auc_score m.auc_score;
  delta_precision = sub_ℕ n.precision m.precision;
  delta_recall = sub_ℕ n.recall m.recall;
  delta_f1 = sub_ℕ n.f1_score m.f1_score;
  winner = if ltb m.auc_score n.auc_score then b else a;
})
compare_found a b _ _ = none

unfoldable pub compare_models : String → String → ModelRegistry → Option Comparison
compare_models a b r = compare_found a b (get_metadata a r) (get_metadata b r)

unfoldable pub archive_with : Option ModelMetadata → String → Action Bool
unfolding update_metadata
archive_with none model_id = pure false
archive_with (some m) model_id = update_metadata model_id (record m { status = "archived" })

unfoldable pub archive_model : String → Action Bool
unfolding archive_with get_metadata
archive_model model_id r = archive_with (get_metadata model_id r) model_id r

abbrev pub is_champion : Option String → String → Bool
is_champion none model_id = false
is_champion (some c) model_id = str_eq c model_id

unfoldable pub remove_model : String → Action (Unit {0})
remove_model model_id r = (
  some tt,
  record r {
    disk = erase model_id r.disk;
    index = record r.index { models = erase model_id r.index.models };
  },
)

unfoldable pub delete_model : String → Action Bool
unfolding remove_model save_index
delete_model model_id r =
    if contains model_id r.index.models
    then if is_champion r.index.champion model_id
      then (some false, r)
      else (do remove_model model_id; save_index; pure true) r
    else (some false, r)
