-- ===== src/Ml/Registry/Ops.antt =====
-- The methods of `ModelRegistry` (services/ml-pipeline/model_registry.py).
use vox_guard.Base.{
  String, Bool, true, false, Option, none, some, List, [], ◌∷◌, if◌then◌else◌, str_eq,
}
use vox_guard.Base.Dict.{Dict, lookup, contains, insert}
use vox_guard.Ml.Registry.State.{
  ModelMetadata, IndexEntry, Index, ModelDir, ModelRegistry, Action, pure, ◌>>◌,
}

-- `_save_index`
unfoldable pub save_index : Action (Unit {0})
save_index r = (some tt, record r { index_file = some r.index })

abbrev pub empty_index : Index
empty_index = record { models = []; champion = none }

-- `__init__` with `_load_index`, over the files that it finds.
unfoldable pub load_index : Option Index → Dict ModelDir → ModelRegistry
load_index (some saved) disk = record { index = saved; index_file = some saved; disk = disk }
load_index none disk = record { index = empty_index; index_file = some empty_index; disk = disk }

abbrev pub open_dir : Option ModelDir → ModelDir
open_dir none = record { suffixes = []; metadata = none }
open_dir (some d) = d

-- Copying to `model<suffix>` replaces a file of that name.
abbrev pub add_suffix : String → List String → List String
add_suffix s [] = s ∷ []
add_suffix s (t ∷ ts) = if str_eq s t then t ∷ ts else t ∷ add_suffix s ts

-- Make the directory, and copy the model if there is a file to copy.
unfoldable pub copy_model : String → String → Bool → Action (Unit {0})
copy_model model_id suffix found r =
    let d = open_dir (lookup model_id r.disk) in
    if found
    then (
      some tt,
      record r {
        disk = insert model_id (record d { suffixes = add_suffix suffix d.suffixes }) r.disk;
      },
    )
    else (none, record r { disk = insert model_id d r.disk })

unfoldable pub store_metadata : Option ModelDir → String → ModelMetadata → Action (Unit {0})
store_metadata none model_id m r = (none, r)
store_metadata (some d) model_id m r =
    (some tt, record r { disk = insert model_id (record d { metadata = some m }) r.disk })

-- Writing `metadata.json` fails if there is no directory.
unfoldable pub write_metadata : String → ModelMetadata → Action (Unit {0})
unfolding store_metadata
write_metadata model_id m r = store_metadata (lookup model_id r.disk) model_id m r

unfoldable pub set_entry : String → IndexEntry → Action (Unit {0})
set_entry model_id e r =
    (some tt, record r { index = record r.index { models = insert model_id e r.index.models } })

-- `suffix` is that of the path given, and `path` where the model is copied to; `found` says
-- whether there is a file at the path given.
unfoldable pub register_model : String → String → Bool → ModelMetadata → Action String
unfolding copy_model write_metadata set_entry save_index
register_model suffix path found m = do
  copy_model m.model_id suffix found
  write_metadata m.model_id m
  set_entry m.model_id (record {
    version = m.version;
    created_at = m.created_at;
    status = m.status;
    auc_score = m.auc_score;
    model_path = path;
    deployed_at = none;
  })
  save_index
  pure m.model_id

-- The first name that matches `model.*`: a model that was copied from a path with no suffix has
-- none.
abbrev pub first_match : List String → Option String
first_match [] = none
first_match (s ∷ ss) = if str_eq s "" then first_match ss else some s

abbrev pub dir_suffixes : Option ModelDir → List String
dir_suffixes none = []
dir_suffixes (some d) = d.suffixes

-- The suffix of the file at the path that is returned.
unfoldable pub get_model_path : String → ModelRegistry → Option String
get_model_path model_id r =
    if contains model_id r.index.models
    then first_match (dir_suffixes (lookup model_id r.disk))
    else none

abbrev pub dir_metadata : Option ModelDir → Option ModelMetadata
dir_metadata none = none
dir_metadata (some d) = d.metadata

unfoldable pub get_metadata : String → ModelRegistry → Option ModelMetadata
get_metadata model_id r = dir_metadata (lookup model_id r.disk)

-- An empty text counts as false.
abbrev pub is_given : Option String → Bool
is_given none = false
is_given (some s) = if str_eq s "" then false else true

abbrev pub refresh : Option IndexEntry → String → ModelMetadata → Action (Unit {0})
refresh none model_id m r = (some tt, r)
refresh (some e) model_id m r = (
  some tt,
  record r {
    index = record r.index {
      models =
          insert model_id
            (record e {
              status = m.status;
              deployed_at = if is_given m.deployed_at then m.deployed_at else e.deployed_at;
            })
            r.index.models;
    };
  },
)

-- The two assignments into the entry of the index.
unfoldable pub refresh_entry : String → ModelMetadata → Action (Unit {0})
refresh_entry model_id m r = refresh (lookup model_id r.index.models) model_id m r

unfoldable pub update_metadata : String → ModelMetadata → Action Bool
unfolding write_metadata refresh_entry save_index
update_metadata model_id m r =
    if contains model_id r.index.models
    then (do write_metadata model_id m; refresh_entry model_id m; save_index; pure true) r
    else (some false, r)

unfoldable pub archive_found : Option ModelMetadata → String → String → Action (Unit {0})
archive_found none old model_id = pure tt
archive_found (some m) old model_id = do
  update_metadata old (record m { status = "archived"; replaced_by = some model_id })
  pure tt

-- The part of `promote_to_champion` that archives the previous champion.
unfoldable pub archive_previous : Option String → String → Action (Unit {0})
unfolding archive_found get_metadata
archive_previous none model_id r = (some tt, r)
archive_previous (some old) model_id r =
    if str_eq old "" then (some tt, r) else archive_found (get_metadata old r) old model_id r

unfoldable pub set_champion : String → Action (Unit {0})
set_champion model_id r =
    (some tt, record r { index = record r.index { champion = some model_id } })

unfoldable pub promote_found : Option ModelMetadata → String → String → Action Bool
unfolding set_champion save_index
promote_found none now model_id = pure false
promote_found (some m) now model_id = do
  update_metadata model_id (record m { status = "champion"; deployed_at = some now })
  set_champion model_id
  save_index
  pure true

-- `now` is the time of the promotion as a text.
unfoldable pub promote_to_champion : String → String → Action Bool
unfolding archive_previous promote_found get_metadata
promote_to_champion now model_id r =
    if contains model_id r.index.models
    then (do
      archive_previous r.index.champion model_id
      (λ s. promote_found (get_metadata model_id s) now model_id s))
        r
    else (some false, r)
