-- ===== src/Archive/Run.antt =====
-- What a successful run of `archive_table` has done (services/data-archival/archival_service.py).
use vox_guard.Base.{
  ℕ, ◌≡◌, refl, String, Bool, true, false, Option, none, some, List, [], ◌∷◌, arith, sym, ap, ◌∙◌,
}
use vox_guard.Archive.Storage.{
  Row, ArchiveMetadata, Codec, ObjectStore, CompressionService, compress, upload_archive,
}
use vox_guard.Archive.Service.{
  Database, ArchivalConfig, Stores, Draw, query_records_to_archive, delete_archived_records,
  committed, describe, deleted, uploaded, compressed, serialized, queried, archive_table,
}

module _ {D V B O : Type 0} (database : Database D V) (codec : Codec V B) (store : ObjectStore O B)
    (isoformat : ℕ → String) (config : ArchivalConfig) (service : CompressionService) where
  abbrev pub query : String → ℕ → D → Option (List (Row V))
  query = query_records_to_archive database codec store isoformat config service

  abbrev pub delete : String → ℕ → D → Option ℕ × D
  delete = delete_archived_records database codec store isoformat config service

  abbrev pub metadata_of : Draw → String → String → List (Row V) → B → B → ArchiveMetadata
  metadata_of = describe database codec store isoformat config service

  abbrev pub archive : Draw → String → String → ℕ → Stores D O → Option ArchiveMetadata × Stores D O
  archive = archive_table database codec store isoformat config service

  -- A run that has returned metadata.
  pub record Run (t : Draw) (table partition : String) (cutoff : ℕ) (s : Stores D O)
      (m : ArchiveMetadata) (end : Stores D O) : Type 0 where
    pub records : List (Row V)
    pub json : B
    pub data' : B
    pub deleted_count : ℕ
    pub read : query table cutoff s.db ≡ some records
    pub dumped : codec.dumps records ≡ some json
    pub packed : compress codec service json ≡ some data'
    pub told : m ≡ metadata_of t table partition records json data'
    pub stored : upload_archive codec store data' m s.bucket ≡ (true, end.bucket)
    pub emptied : delete table cutoff s.db ≡ (some deleted_count, end.db)

  pub committed-lem :
      (r : Option ℕ × D) (k : ℕ) (d : D)
      → committed database codec store isoformat config service r ≡ (some k, d)
      → (e : D) × (r ≡ (some k, e)) × (d ≡ database.commit e)
  committed-lem (none, e) k d p = absurd (ground arith)
  committed-lem (some n, e) k d p = (e, ground arith, ground arith)

  deleted-lem :
      (m n : ArchiveMetadata) (o : O) (r : Option ℕ × D) (end : Stores D O)
      → deleted database codec store isoformat config service m o r ≡ (some n, end)
      → (n ≡ m) × (end.bucket ≡ o) × (k : ℕ) × (r ≡ (some k, end.db))
  deleted-lem m n o (none, d) end e = absurd (ground arith)
  deleted-lem m n o (some k, d) end e = (ground arith, ground arith, k, ground arith)

  uploaded-lem :
      (m n : ArchiveMetadata) (cutoff : ℕ) (d : D) (r : Bool × O) (end : Stores D O)
      → uploaded database codec store isoformat config service m cutoff d r ≡ (some n, end)
      → (n ≡ m)
        × (r ≡ (true, end.bucket))
        × (k : ℕ) × (delete m.table_name cutoff d ≡ (some k, end.db))
  uploaded-lem m n cutoff d (false, o) end e = absurd (ground arith)
  uploaded-lem m n cutoff d (true, o) end e =
      let (p, q, k, r) = deleted-lem m n o (delete m.table_name cutoff d) end e in
      (p, ap (λ b. (true, b)) (sym q), k, r)

  module _ (t : Draw) (table partition : String) (cutoff : ℕ) (s end : Stores D O)
      (m : ArchiveMetadata) where
    compressed-Run :
        (records : List (Row V)) (json : B) (c : Option B)
        → query table cutoff s.db ≡ some records
        → codec.dumps records ≡ some json
        → compress codec service json ≡ c
        → compressed database codec store isoformat config service t table partition cutoff records
            json c s
          ≡ (some m, end)
        → Run t table partition cutoff s m end
    compressed-Run records json none q d p e = absurd (ground arith)
    compressed-Run records json (some data') q d p e =
        let m' = metadata_of t table partition records json data' in
        let (same, up, k, gone) =
          uploaded-lem m' m cutoff s.db (upload_archive codec store data' m' s.bucket) end e in
        record {
          records = records;
          json = json;
          data' = data';
          deleted_count = k;
          read = q;
          dumped = d;
          packed = p;
          told = same;
          stored = ap (λ n. upload_archive codec store data' n s.bucket) same ∙ up;
          emptied = gone;
        }

    serialized-Run :
        (records : List (Row V)) (j : Option B)
        → query table cutoff s.db ≡ some records
        → codec.dumps records ≡ j
        → serialized database codec store isoformat config service t table partition cutoff records
            j s
          ≡ (some m, end)
        → Run t table partition cutoff s m end
    serialized-Run records none q d e = absurd (ground arith)
    serialized-Run records (some json) q d e =
        compressed-Run records json (compress codec service json) q d refl e

    queried-Run :
        (r : Option (List (Row V)))
        → query table cutoff s.db ≡ r
        → queried database codec store isoformat config service t table partition cutoff r s
          ≡ (some m, end)
        → Run t table partition cutoff s m end
    queried-Run none q e = absurd (ground arith)
    queried-Run (some []) q e = absurd (ground arith)
    queried-Run (some (r ∷ rs)) q e = serialized-Run (r ∷ rs) (codec.dumps (r ∷ rs)) q refl e

    pub archive_table-Run :
        archive t table partition cutoff s ≡ (some m, end) → Run t table partition cutoff s m end
    unfolding archive_table
    archive_table-Run e = queried-Run (query table cutoff s.db) refl e
