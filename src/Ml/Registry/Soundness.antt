-- ===== src/Ml/Registry/Soundness.antt =====
-- The index agrees with the files, and only the champion has the status of one
-- (services/ml-pipeline/model_registry.py).
use vox_guard.Base.{
  ◌≡◌, ◌≢◌, String, true, false, Option, none, some, arith, str_eq, Option-cases, inl, inr,
}
use vox_guard.Base.Dict.{lookup, contains}
use vox_guard.Ml.Registry.State.{ModelMetadata, IndexEntry, ModelDir, ModelRegistry}
use vox_guard.Ml.Registry.Ops.{get_metadata}
use vox_guard.Ml.Registry.Writes.{Updates}

abbrev pub status_of : Option ModelMetadata → Option String
status_of none = none
status_of (some m) = some m.status

-- Every listed model has its metadata on disk, under the status that the index gives it.
abbrev pub IsInStep : ModelRegistry → Type 0
IsInStep r =
    (k : String) (e : IndexEntry)
    → lookup k r.index.models ≡ some e
    → status_of (get_metadata k r) ≡ some e.status

-- No listed model has the status of a champion but the one that the index names.
abbrev pub IsUnique : ModelRegistry → Type 0
IsUnique r =
    (k : String) (e : IndexEntry)
    → lookup k r.index.models ≡ some e
    → e.status ≡ "champion"
    → r.index.champion ≡ some k

-- A champion that the index names is a listed model with a name that is not empty.
abbrev pub IsListed : ModelRegistry → Type 0
IsListed r =
    (c : String)
    → r.index.champion ≡ some c
    → (contains c r.index.models ≡ true) × (str_eq c "" ≡ false)

pub record IsSound (r : ModelRegistry) : Type 0 where
  pub in_step : IsInStep r
  pub unique : IsUnique r
  pub listed : IsListed r

pub entry_of :
    (k : String) (r : ModelRegistry)
    → contains k r.index.models ≡ true
    → (e : IndexEntry) × (lookup k r.index.models ≡ some e)
entry_of k r h = elim (Option-cases (lookup k r.index.models)) [
  | inl missing ↦ absurd (ground arith)
  | inr found ↦ found
]

pub metadata_of :
    (k : String) (e : IndexEntry) (r : ModelRegistry)
    → status_of (get_metadata k r) ≡ some e.status
    → (m : ModelMetadata) × (get_metadata k r ≡ some m) × (m.status ≡ e.status)
metadata_of k e r h = elim (Option-cases (get_metadata k r)) [
  | inl missing ↦ absurd (ground arith)
  | inr (m, found) ↦ (m, found, ground arith)
]

pub dir_of :
    (k : String) (m : ModelMetadata) (r : ModelRegistry)
    → get_metadata k r ≡ some m
    → (d : ModelDir) × (lookup k r.disk ≡ some d)
unfolding get_metadata
dir_of k m r h = elim (Option-cases (lookup k r.disk)) [
  | inl missing ↦ absurd (ground arith)
  | inr found ↦ found
]

-- An update of a listed model keeps the index in step with the files.
pub Updates-IsInStep :
    (j : String) (m : ModelMetadata) (e : IndexEntry) (r s : ModelRegistry)
    → Updates j m e r s
    → IsInStep r
    → IsInStep s
Updates-IsInStep j m e r s u h k f listed = ground (arith, u.entry_at k, u.metadata_at k, h k f)

-- An update to another status than that of a champion leaves the champion alone.
pub Updates-IsUnique :
    (j : String) (m : ModelMetadata) (e : IndexEntry) (r s : ModelRegistry)
    → Updates j m e r s
    → m.status ≢ "champion"
    → IsUnique r
    → IsUnique s
Updates-IsUnique j m e r s u other h k f listed champion =
    ground (arith, u.entry_at k, u.champion_kept, h k f)

pub Updates-contains :
    (j : String) (m : ModelMetadata) (e : IndexEntry) (r s : ModelRegistry)
    → Updates j m e r s
    → (k : String) → contains k r.index.models ≡ true
    → contains k s.index.models ≡ true
Updates-contains j m e r s u k h = ground (arith, u.entry_at k)
