-- ===== src/Ml/Registry/Writes.antt =====
-- What `update_metadata` does to the index and the files (services/ml-pipeline/model_registry.py).
use vox_guard.Base.{◌≡◌, refl, String, true, some, arith, if◌then◌else◌, str_eq}
use vox_guard.Base.Dict.{lookup, insert, lookup-insert}
use vox_guard.Ml.Registry.State.{ModelMetadata, IndexEntry, ModelDir, ModelRegistry}
use vox_guard.Ml.Registry.Ops.{is_given, get_metadata, update_metadata}

abbrev pub refreshed : IndexEntry → ModelMetadata → IndexEntry
refreshed e m = record e {
  status = m.status;
  deployed_at = if is_given m.deployed_at then m.deployed_at else e.deployed_at;
}

-- `s` is `r` with the metadata of one model replaced, in the files and in the index, and saved.
pub record Updates (model_id : String) (m : ModelMetadata) (e : IndexEntry) (r s : ModelRegistry)
    : Type 0 where
  pub entry_at :
      (k : String)
      → lookup k s.index.models
        ≡ (if str_eq model_id k then some (refreshed e m) else lookup k r.index.models)
  pub metadata_at :
      (k : String) → get_metadata k s ≡ (if str_eq model_id k then some m else get_metadata k r)
  pub champion_kept : s.index.champion ≡ r.index.champion
  pub saved : s.index_file ≡ some s.index

module _ (model_id : String) (m : ModelMetadata) (e : IndexEntry) (d : ModelDir) (r : ModelRegistry)
    (listed : lookup model_id r.index.models ≡ some e)
    (stored : lookup model_id r.disk ≡ some d) where
  after : ModelRegistry
  after = record r {
    disk = insert model_id (record d { metadata = some m }) r.disk;
    index = record r.index { models = insert model_id (refreshed e m) r.index.models };
    index_file = some (record r.index { models = insert model_id (refreshed e m) r.index.models });
  }

  update_metadata-after : update_metadata model_id m r ≡ (some true, after)
  unfolding update_metadata after
  update_metadata-after = ground arith

  after-Updates : Updates model_id m e r after
  unfolding after get_metadata
  after-Updates = record {
    entry_at = λ k. lookup-insert model_id k (refreshed e m) r.index.models;
    metadata_at =
        λ k. ground (arith, lookup-insert model_id k (record d { metadata = some m }) r.disk);
    champion_kept = refl;
    saved = refl;
  }

  -- A listed model with a directory is updated in both places, and the index is saved.
  pub update_metadata_lem :
      (s : ModelRegistry) × (update_metadata model_id m r ≡ (some true, s))
      × Updates model_id m e r s
  update_metadata_lem = (after, update_metadata-after, after-Updates)
