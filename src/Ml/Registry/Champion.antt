-- ===== src/Ml/Registry/Champion.antt =====
-- Promotion, archiving and deletion (services/ml-pipeline/model_registry.py).
use vox_guard.Base.{
  ◌≡◌, ◌≢◌, refl, String, true, false, none, some, arith, str_eq, eq_iff, Option-cases, inl, inr,
}
use vox_guard.Base.Dict.{lookup, contains}
use vox_guard.Ml.Registry.State.{ModelMetadata, IndexEntry, ModelRegistry}
use vox_guard.Ml.Registry.Ops.{get_metadata, archive_previous, promote_to_champion}
use vox_guard.Ml.Registry.Writes.{Updates, update_metadata_lem}
use vox_guard.Ml.Registry.Soundness.{
  status_of, IsInStep, IsUnique, IsListed, IsSound, entry_of, metadata_of, dir_of, Updates-IsInStep,
  Updates-contains,
}

abbrev HasNoChampion : ModelRegistry → Type 0
HasNoChampion r =
    (k : String) (e : IndexEntry) → lookup k r.index.models ≡ some e → e.status ≢ "champion"

-- What a registry looks like when the previous champion has been archived for `model_id`.
record Demotes (model_id : String) (r s : ModelRegistry) : Type 0 where
  in_step : IsInStep s
  no_champion : HasNoChampion s
  contains_kept : (k : String) → contains k r.index.models ≡ true → contains k s.index.models ≡ true
  archived :
      (c : String) (m : ModelMetadata)
      → r.index.champion ≡ some c
      → get_metadata c r ≡ some m
      → get_metadata c s ≡ some (record m { status = "archived"; replaced_by = some model_id })
  others_kept : (k : String) → r.index.champion ≢ some k → get_metadata k s ≡ get_metadata k r

archived_ne : (s : String) → s ≡ "archived" → s ≢ "champion"
archived_ne s e h = ground (arith, eq_iff "archived" "champion")

demote_none :
    (model_id : String) (r : ModelRegistry)
    → IsSound r
    → r.index.champion ≡ none
    → Demotes model_id r r
demote_none model_id r h e = record {
  in_step = h.in_step;
  no_champion = λ k f listed champion. ground (arith, h.unique k f listed champion);
  contains_kept = λ k c. c;
  archived = λ c m f g. ground arith;
  others_kept = λ k f. refl;
}

module _ (model_id old : String) (m : ModelMetadata) (e : IndexEntry) (r s : ModelRegistry)
    (h : IsSound r) (champion : r.index.champion ≡ some old) (found : get_metadata old r ≡ some m)
    (u : Updates old (record m { status = "archived"; replaced_by = some model_id }) e r s) where
  archive_no_champion : HasNoChampion s
  archive_no_champion k f listed is =
      ground (arith, u.entry_at k, h.unique k f, eq_iff old k, archived_ne f.status)

  demote_old : Demotes model_id r s
  demote_old = record {
    in_step =
        Updates-IsInStep old (record m { status = "archived"; replaced_by = some model_id }) e r s u
          h.in_step;
    no_champion = archive_no_champion;
    contains_kept =
        Updates-contains old (record m { status = "archived"; replaced_by = some model_id }) e r s
          u;
    archived = λ c n f g. ground (arith, u.metadata_at c, eq_iff old c);
    others_kept = λ k f. ground (arith, u.metadata_at k, eq_iff old k);
  }

archive_previous-Demotes :
    (model_id : String) (r : ModelRegistry)
    → IsSound r
    → (s : ModelRegistry) × (archive_previous r.index.champion model_id r ≡ (some tt, s))
      × Demotes model_id r s
unfolding archive_previous
archive_previous-Demotes model_id r h = elim (Option-cases r.index.champion) [
  | inl e ↦ (r, rw e, demote_none model_id r h e)
  | inr (old, c) ↦
      let (e, listed) = entry_of old r (h.listed old c).0 in
      let (m, found, same) = metadata_of old e r (h.in_step old e listed) in
      let (d, stored) = dir_of old m r found in
      let (s, ran, u) =
        update_metadata_lem old (record m { status = "archived"; replaced_by = some model_id }) e d
          r listed stored in
      (s, ground (arith, (h.listed old c).1), demote_old model_id old m e r s h c found u)
]

-- What a promotion leaves behind.
pub record Promotes (now model_id : String) (r s : ModelRegistry) : Type 0 where
  pub sound : IsSound s
  pub champion : s.index.champion ≡ some model_id
  pub crowned : status_of (get_metadata model_id s) ≡ some "champion"
  pub archived :
      (old : String) (m : ModelMetadata)
      → r.index.champion ≡ some old
      → old ≢ model_id
      → get_metadata old r ≡ some m
      → get_metadata old s ≡ some (record m { status = "archived"; replaced_by = some model_id })
  pub others_kept :
      (k : String) → k ≢ model_id → r.index.champion ≢ some k → get_metadata k s ≡ get_metadata k r
  pub saved : s.index_file ≡ some s.index

abbrev crown : String → ModelRegistry → ModelRegistry
crown model_id t = record t {
  index = record t.index { champion = some model_id };
  index_file = some (record t.index { champion = some model_id });
}

module _ (now model_id : String) (m : ModelMetadata) (e : IndexEntry) (r s t : ModelRegistry)
    (named : str_eq model_id "" ≡ false) (listed : contains model_id r.index.models ≡ true)
    (d : Demotes model_id r s)
    (u : Updates model_id (record m { status = "champion"; deployed_at = some now }) e s t) where
  crown-IsInStep : IsInStep (crown model_id t)
  unfolding get_metadata
  crown-IsInStep =
      Updates-IsInStep model_id (record m { status = "champion"; deployed_at = some now }) e s t u
        d.in_step

  crown-IsUnique : IsUnique (crown model_id t)
  crown-IsUnique k f at is = ground (arith, u.entry_at k, d.no_champion k f, eq_iff model_id k)

  crown-IsListed : IsListed (crown model_id t)
  crown-IsListed c e' = ground (
    arith,
    Updates-contains model_id (record m { status = "champion"; deployed_at = some now }) e s t u
        model_id (d.contains_kept model_id listed),
  )

  crown-Promotes : Promotes now model_id r (crown model_id t)
  unfolding get_metadata
  crown-Promotes = record {
    sound = record { in_step = crown-IsInStep; unique = crown-IsUnique; listed = crown-IsListed };
    champion = refl;
    crowned = ground (arith, u.metadata_at model_id, eq_iff model_id model_id);
    archived = λ old n c ne f.
        ground (arith, u.metadata_at old, eq_iff model_id old, d.archived old n c f);
    others_kept = λ k ne f. ground (arith, u.metadata_at k, eq_iff model_id k, d.others_kept k f);
    saved = refl;
  }

-- Promoting a listed model, whose identifier is not empty, in a registry whose index agrees with the files and where only the
-- champion has the status of one, succeeds and keeps that so: the model is the one champion, the
-- previous champion, if it is another, is archived as replaced by it, the metadata of all other
-- models stay as they were, and the index file is the index.
pub promote_to_champion-Promotes :
    (now model_id : String) (r : ModelRegistry)
    → IsSound r
    → contains model_id r.index.models ≡ true
    → str_eq model_id "" ≡ false
    → (s : ModelRegistry) × (promote_to_champion now model_id r ≡ (some true, s))
      × Promotes now model_id r s
unfolding promote_to_champion
promote_to_champion-Promotes now model_id r h listed named =
    let (s, archived, d) = archive_previous-Demotes model_id r h in
    let (e, at) = entry_of model_id s (d.contains_kept model_id listed) in
    let (m, found, same) = metadata_of model_id e s (d.in_step model_id e at) in
    let (dir, stored) = dir_of model_id m s found in
    let (t, ran, u) =
      update_metadata_lem model_id (record m { status = "champion"; deployed_at = some now }) e dir
        s at stored in
    (crown model_id t, ground arith, crown-Promotes now model_id m e r s t named listed d u)
