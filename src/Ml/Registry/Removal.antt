-- ===== src/Ml/Registry/Removal.antt =====
-- Registering, archiving and deleting (services/ml-pipeline/model_registry.py).
use vox_guard.Base.{
  ◌≡◌, ◌≢◌, refl, String, true, false, Option, none, some, arith, if◌then◌else◌, str_eq, eq_iff, ap,
  Bool-cases, inl, inr,
}
use vox_guard.Base.Dict.{
  lookup, contains, insert, lookup-insert, lookup-insert_self, lookup-erase_ne, lookup-erase_self,
  HasUniqueKeys, erase,
}
use vox_guard.Ml.Registry.State.{ModelMetadata, IndexEntry, ModelDir, ModelRegistry}
use vox_guard.Ml.Registry.Ops.{get_metadata, register_model, open_dir, add_suffix}
use vox_guard.Ml.Registry.Maintenance.{archive_model, delete_model, is_champion}
use vox_guard.Ml.Registry.Writes.{update_metadata_lem}
use vox_guard.Ml.Registry.Soundness.{status_of, IsSound, entry_of, metadata_of, dir_of}

-- A champion that is archived keeps its place: the call succeeds, its metadata say that it is
-- archived, and the index still names it as the champion.
pub archive_model-keeps_champion :
    (c : String) (r : ModelRegistry)
    → IsSound r
    → r.index.champion ≡ some c
    → (s : ModelRegistry) × (archive_model c r ≡ (some true, s))
      × (s.index.champion ≡ some c)
      × (status_of (get_metadata c s) ≡ some "archived")
unfolding archive_model
archive_model-keeps_champion c r h e =
    let (f, listed) = entry_of c r (h.listed c e).0 in
    let (m, found, same) = metadata_of c f r (h.in_step c f listed) in
    let (d, stored) = dir_of c m r found in
    let (s, ran, u) =
      update_metadata_lem c (record m { status = "archived" }) f d r listed stored in
    (s, ground arith, ground (arith, u.champion_kept), ground (arith, u.metadata_at c, eq_iff c c))

-- The champion is never deleted: the call returns false and changes nothing.
pub delete_model-champion :
    (c : String) (r : ModelRegistry)
    → r.index.champion ≡ some c
    → delete_model c r ≡ (some false, r)
unfolding delete_model
delete_model-champion c r e = ground (arith, eq_iff c c)

is_champion_ne : (o : Option String) (k : String) → o ≢ some k → is_champion o k ≡ false
is_champion_ne none k h = refl
is_champion_ne (some c) k h = elim (Bool-cases (str_eq c k)) [
  | inl same ↦ absurd (h (ap some ((eq_iff c k).0 same)))
  | inr different ↦ different
]

-- What a deletion leaves behind.
pub record Deletes (model_id : String) (r s : ModelRegistry) : Type 0 where
  pub sound : IsSound s
  pub gone : contains model_id s.index.models ≡ false
  pub metadata_gone : get_metadata model_id s ≡ none
  pub others_kept : (k : String) → k ≢ model_id → get_metadata k s ≡ get_metadata k r
  pub champion_kept : s.index.champion ≡ r.index.champion
  pub saved : s.index_file ≡ some s.index

abbrev deleted : String → ModelRegistry → ModelRegistry
deleted model_id r = record r {
  disk = erase model_id r.disk;
  index = record r.index { models = erase model_id r.index.models };
  index_file = some (record r.index { models = erase model_id r.index.models });
}

module _ (model_id : String) (r : ModelRegistry) (h : IsSound r)
    (indexed : HasUniqueKeys r.index.models) (filed : HasUniqueKeys r.disk)
    (other : r.index.champion ≢ some model_id) where
  deleted-Deletes : Deletes model_id r (deleted model_id r)
  unfolding get_metadata
  deleted-Deletes = record {
    sound = record {
      in_step = λ k e at. ground (
        arith,
        eq_iff model_id k,
        lookup-erase_self model_id r.index.models indexed,
        lookup-erase_ne model_id k r.index.models,
        lookup-erase_ne model_id k r.disk,
        h.in_step k e,
      );
      unique = λ k e at is. ground (
        arith,
        eq_iff model_id k,
        lookup-erase_self model_id r.index.models indexed,
        lookup-erase_ne model_id k r.index.models,
        h.unique k e,
      );
      listed = λ c e.
          ground
            (arith, eq_iff model_id c, lookup-erase_ne model_id c r.index.models, h.listed c e);
    };
    gone = ground (arith, lookup-erase_self model_id r.index.models indexed);
    metadata_gone = ground (arith, lookup-erase_self model_id r.disk filed);
    others_kept = λ k ne. ground (arith, lookup-erase_ne model_id k r.disk);
    champion_kept = refl;
    saved = refl;
  }

  -- Deleting a listed model that is not the champion succeeds: it is gone from the index and the
  -- files, the other models and the champion are as they were, and the registry stays sound.
  pub delete_model-Deletes :
      contains model_id r.index.models ≡ true
      → (s : ModelRegistry) × (delete_model model_id r ≡ (some true, s)) × Deletes model_id r s
  unfolding delete_model
  delete_model-Deletes listed = (
    deleted model_id r,
    ground (arith, is_champion_ne r.index.champion model_id other),
    deleted-Deletes,
  )

abbrev entry : String → ModelMetadata → IndexEntry
entry path m = record {
  version = m.version;
  created_at = m.created_at;
  status = m.status;
  auc_score = m.auc_score;
  model_path = path;
  deployed_at = none;
}

-- The directory once the model is copied.
abbrev copied : String → ModelDir → ModelDir
copied suffix d = record d { suffixes = add_suffix suffix d.suffixes }

abbrev registered : String → String → ModelMetadata → ModelDir → ModelRegistry → ModelRegistry
registered suffix path m d r =
    let index = record r.index { models = insert m.model_id (entry path m) r.index.models } in
    record r {
      disk =
          insert m.model_id (record (copied suffix d) { metadata = some m })
            (insert m.model_id (copied suffix d) r.disk);
      index = index;
      index_file = some index;
    }

module _ (suffix path : String) (m : ModelMetadata) (r : ModelRegistry) where
  abbrev dir : ModelDir
  dir = open_dir (lookup m.model_id r.disk)

  register_model-registered :
      register_model suffix path true m r ≡ (some m.model_id, registered suffix path m dir r)
  unfolding register_model
  register_model-registered =
      ground (arith, lookup-insert_self m.model_id (copied suffix dir) r.disk)

  registered-metadata :
      (k : String)
      → get_metadata k (registered suffix path m dir r)
        ≡ (if str_eq m.model_id k then some m else get_metadata k r)
  unfolding get_metadata
  registered-metadata k = ground (
    arith,
    lookup-insert m.model_id k (copied suffix dir) r.disk,
    lookup-insert m.model_id k (record (copied suffix dir) { metadata = some m })
        (insert m.model_id (copied suffix dir) r.disk),
  )

  registered-IsSound : IsSound r → m.status ≢ "champion" → IsSound (registered suffix path m dir r)
  registered-IsSound h other = record {
    in_step = λ k e at. ground (
      arith,
      registered-metadata k,
      lookup-insert m.model_id k (entry path m) r.index.models,
      h.in_step k e,
    );
    unique = λ k e at is.
        ground (arith, lookup-insert m.model_id k (entry path m) r.index.models, h.unique k e);
    listed = λ c e.
        ground (arith, lookup-insert m.model_id c (entry path m) r.index.models, h.listed c e);
  }

  -- A registration of a model file that exists, under a status that is not a champion's, returns
  -- the model's name, keeps the registry sound, stores the metadata, and leaves the champion and
  -- the metadata of the other models alone.
  pub register_model-IsSound :
      IsSound r
      → m.status ≢ "champion"
      → (s : ModelRegistry) × (register_model suffix path true m r ≡ (some m.model_id, s))
        × IsSound s
        × (s.index.champion ≡ r.index.champion)
        × (get_metadata m.model_id s ≡ some m)
        × ((k : String) → k ≢ m.model_id → get_metadata k s ≡ get_metadata k r)
  register_model-IsSound h other = (
    registered suffix path m dir r,
    register_model-registered,
    registered-IsSound h other,
    refl,
    ground (arith, registered-metadata m.model_id, eq_iff m.model_id m.model_id),
    λ k ne. ground (arith, registered-metadata k, eq_iff m.model_id k),
  )
