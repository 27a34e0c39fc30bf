-- ===== src/Archive/Service.antt =====
-- `ArchivalService` (services/data-archival/archival_service.py). An exception ends a method with
-- none and leaves what has been written by then.
use Prim.Native.String.{◌++◌ as append_str}
use vox_guard.Base.{
  ℕ, ◌+◌, ◌*◌, String, Bool, true, false, Option, none, some, List, [], ◌∷◌, str_eq, if◌then◌else◌,
  length,
}
use vox_guard.Base.Dict.{Dict, lookup}
use vox_guard.Archive.Storage.{
  Row, ArchiveMetadata, CompressionType, type_name, Codec, ObjectStore, CompressionService,
  compress, decompress, upload_archive, download_archive, get_metadata,
}

-- The SQL statements of the service, on a connection in state `D`; none is an exception. The
-- arguments are the table, the date column and the cutoff or the values.
pub record Database (D V : Type 0) : Type 0 where
  pub select_before : String → String → ℕ → ℕ → D → Option (List (Row V))
  pub delete_before : String → String → ℕ → D → Option ℕ × D
  pub insert_row : String → List String → List V → D → Option ℕ × D
  pub commit : D → D

-- `ArchivalConfig`, as far as it is used here.
pub record ArchivalConfig : Type 0 where
  pub compression : CompressionType
  pub cold_retention_years : ℕ
  pub archive_prefix : String
  pub chunk_size : ℕ

-- `date_columns`
abbrev pub date_columns : Dict String
date_columns =
    ("acm_alerts", "detected_at")
    ∷ ("audit_events", "created_at")
    ∷ ("call_detail_records", "call_start_time")
    ∷ ("gateway_blacklist_history", "created_at")
    ∷ ("fraud_investigations", "created_at")
    ∷ []

abbrev pub or_created_at : Option String → String
or_created_at none = "created_at"
or_created_at (some c) = c

unfoldable pub get_date_column : String → String
get_date_column table = or_created_at (lookup table date_columns)

-- The connection and the bucket.
pub record Stores (D O : Type 0) : Type 0 where
  pub db : D
  pub bucket : O

-- What an archive takes itself: its identifier and the clock, in seconds.
pub record Draw : Type 0 where
  pub archive_id : String
  pub now : ℕ

abbrev pub column_names : {V : Type 0} → Row V → List String
column_names [] = []
column_names (e ∷ r) = e.0 ∷ column_names r

abbrev pub append_value : {V : Type 0} → Option V → Option (List V) → Option (List V)
append_value none vs = none
append_value (some v) none = none
append_value (some v) (some vs) = some (v ∷ vs)

-- `[record[col] for col in columns]`; none is a `KeyError`.
abbrev pub row_values : {V : Type 0} → List String → Row V → Option (List V)
row_values [] r = some []
row_values (c ∷ cs) r = append_value (lookup c r) (row_values cs r)

module _ {D V B O : Type 0} (database : Database D V) (codec : Codec V B) (store : ObjectStore O B)
    (isoformat : ℕ → String) (config : ArchivalConfig) (service : CompressionService) where
  abbrev pub committed : Option ℕ × D → Option ℕ × D
  committed (none, d) = (none, d)
  committed (some n, d) = (some n, database.commit d)

  unfoldable pub query_records_to_archive : String → ℕ → D → Option (List (Row V))
  query_records_to_archive table cutoff d =
      database.select_before table (get_date_column table) cutoff config.chunk_size d

  unfoldable pub delete_archived_records : String → ℕ → D → Option ℕ × D
  delete_archived_records table cutoff d =
      committed (database.delete_before table (get_date_column table) cutoff d)

  -- `{archive_prefix}/{table_name}/{partition_key}/{archive_id}.{compression}`
  abbrev pub key_of : String → String → String → String
  key_of table partition archive_id = append_str config.archive_prefix (
      append_str "/" (
        append_str table (
          append_str "/" (
            append_str partition (
              append_str "/"
                (append_str archive_id (append_str "." (type_name config.compression))))))))

  abbrev pub describe : Draw → String → String → List (Row V) → B → B → ArchiveMetadata
  describe t table partition records json data' = record {
    archive_id = t.archive_id;
    table_name = table;
    partition_key = partition;
    record_count = length records;
    original_size_bytes = codec.size json;
    compressed_size_bytes = codec.size data';
    compression_type = type_name config.compression;
    created_at = isoformat t.now;
    checksum_sha256 = codec.sha256 data';
    s3_key = key_of table partition t.archive_id;
    retention_until = isoformat (t.now + config.cold_retention_years * 365 * 86400);
  }

  abbrev pub deleted : ArchiveMetadata → O → Option ℕ × D → Option ArchiveMetadata × Stores D O
  deleted m o (none, d) = (none, record { db = d; bucket = o })
  deleted m o (some n, d) = (some m, record { db = d; bucket = o })

  abbrev pub uploaded : ArchiveMetadata → ℕ → D → Bool × O → Option ArchiveMetadata × Stores D O
  uploaded m cutoff d (false, o) = (none, record { db = d; bucket = o })
  uploaded m cutoff d (true, o) = deleted m o (delete_archived_records m.table_name cutoff d)

  abbrev pub compressed :
      Draw
      → String
      → String
      → ℕ
      → List (Row V)
      → B
      → Option B
      → Stores D O
      → Option ArchiveMetadata × Stores D O
  compressed t table partition cutoff records json none s = (none, s)
  compressed t table partition cutoff records json (some data') s =
      let m = describe t table partition records json data' in
      uploaded m cutoff s.db (upload_archive codec store data' m s.bucket)

  abbrev pub serialized :
      Draw
      → String
      → String
      → ℕ
      → List (Row V)
      → Option B
      → Stores D O
      → Option ArchiveMetadata × Stores D O
  serialized t table partition cutoff records none s = (none, s)
  serialized t table partition cutoff records (some json) s =
      compressed t table partition cutoff records json (compress codec service json) s

  abbrev pub queried :
      Draw
      → String
      → String
      → ℕ
      → Option (List (Row V))
      → Stores D O
      → Option ArchiveMetadata × Stores D O
  queried t table partition cutoff none s = (none, s)
  queried t table partition cutoff (some []) s = (none, s)
  queried t table partition cutoff (some (r ∷ rs)) s =
      serialized t table partition cutoff (r ∷ rs) (codec.dumps (r ∷ rs)) s

  unfoldable pub archive_table :
      Draw → String → String → ℕ → Stores D O → Option ArchiveMetadata × Stores D O
  archive_table t table partition cutoff s =
      queried t table partition cutoff (query_records_to_archive table cutoff s.db) s

  -- A row that cannot be inserted is left out, and so does not count.
  abbrev pub count_inserted : Option ℕ → ℕ → ℕ
  count_inserted none n = n
  count_inserted (some k) n = n + k

  -- The loop over the records; none is the `KeyError` of a record that lacks a column.
  unfoldable pub insert_all : String → List String → List (Row V) → ℕ → D → Option ℕ × D
  insert_all table columns [] n d = (some n, database.commit d)
  insert_all table columns (r ∷ rs) n d = elim (row_values columns r) [
    | none ↦ (none, d)
    | some values ↦
        let (k, e) = database.insert_row table columns values d in
        insert_all table columns rs (count_inserted k n) e
  ]

  unfoldable pub insert_restored_records : String → List (Row V) → D → Option ℕ × D
  insert_restored_records table [] d = (some 0, d)
  insert_restored_records table (r ∷ rs) d = insert_all table (column_names r) (r ∷ rs) 0 d

  abbrev pub inserted : List (Row V) → O → Option ℕ × D → Option (List (Row V)) × Stores D O
  inserted records o (none, d) = (none, record { db = d; bucket = o })
  inserted records o (some n, d) = (some records, record { db = d; bucket = o })

  abbrev pub parsed :
      String → Option (List (Row V)) → Stores D O → Option (List (Row V)) × Stores D O
  parsed table none s = (none, s)
  parsed table (some records) s =
      inserted records s.bucket (insert_restored_records table records s.db)

  abbrev pub load_json : Option B → Option (List (Row V))
  load_json none = none
  load_json (some b) = codec.loads b

  abbrev pub downloaded :
      ArchiveMetadata → Option B → Stores D O → Option (List (Row V)) × Stores D O
  downloaded m none s = (none, s)
  downloaded m (some b) s =
      if str_eq (codec.sha256 b) m.checksum_sha256
      then parsed m.table_name (load_json (decompress codec service b)) s
      else (none, s)

  abbrev pub described : Option ArchiveMetadata → Stores D O → Option (List (Row V)) × Stores D O
  described none s = (none, s)
  described (some m) s = downloaded m (download_archive codec store m.s3_key s.bucket) s

  unfoldable pub restore_archive : String → Stores D O → Option (List (Row V)) × Stores D O
  restore_archive archive_id s = described (get_metadata codec store archive_id s.bucket) s
