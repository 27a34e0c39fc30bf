-- ===== src/Archive/Examples.antt =====
-- Three old rows, and a chunk of two.
use vox_guard.Base.{
  ℕ, ◌≤◌, ◌<◌, ◌≡◌, refl, String, Bool, some, List, [], ◌∷◌, map, length, count_if, arith, ◌+◌,
}
use vox_guard.Base.Dict.{Dict}
use vox_guard.Archive.Storage.{
  Row, ArchiveMetadata, gzip, CompressionService, compress, upload_archive,
}
use vox_guard.Archive.Service.{
  ArchivalConfig, Stores, Draw, get_date_column, query_records_to_archive, delete_archived_records,
  archive_table, restore_archive,
}
use vox_guard.Archive.Run.{archive, query}
use vox_guard.Archive.Insertion.{AreFresh}
use vox_guard.Archive.Loss.{archive_table_loses}
use vox_guard.Archive.Restore.{restore_archive-archive_table}
use vox_guard.Archive.Dates.{
  Blob, rows, metadata, packed, is_due, row, same_key, database, rows_of, database-IsSql, codec,
  codec-IsLossless, bucket_store, bucket-IsConsistent, database-IsTable,
}

abbrev config : ArchivalConfig
config = record {
  compression = gzip;
  cold_retention_years = 7;
  archive_prefix = "archives";
  chunk_size = 2;
}

abbrev service : CompressionService
service = record { compression_type = gzip; compression_level = 3 }

abbrev isoformat : ℕ → String
isoformat n = "2024-06-01T00:00:00"

abbrev draw : Draw
draw = record { archive_id = "x"; now = 0 }

abbrev stores : Stores (List ℕ) (Dict Blob)
stores = record { db = 1 ∷ 2 ∷ 3 ∷ 9 ∷ []; bucket = [] }

abbrev chunk : List (Row ℕ)
chunk = row 1 ∷ row 2 ∷ []

abbrev told : ArchiveMetadata
told = record {
  archive_id = "x";
  table_name = "acm_alerts";
  partition_key = "2024-01";
  record_count = 2;
  original_size_bytes = 0;
  compressed_size_bytes = 0;
  compression_type = "gzip";
  created_at = "2024-06-01T00:00:00";
  checksum_sha256 = "sum";
  s3_key = "archives/acm_alerts/2024-01/x.gzip";
  retention_until = "2024-06-01T00:00:00";
}

abbrev archived : Stores (List ℕ) (Dict Blob)
archived = record {
  db = 9 ∷ [];
  bucket =
      ("archives/acm_alerts/2024-01/x.gzip", packed (rows chunk))
      ∷ ("metadata/x.json", metadata told)
      ∷ [];
}

run_archives :
    archive database codec bucket_store isoformat config service draw "acm_alerts" "2024-01" 5
      stores
    ≡ (some told, archived)
unfolding archive_table query_records_to_archive get_date_column compress upload_archive
    delete_archived_records
run_archives = refl

archive_table_loses_example :
    (2 ≤ 2)
    × (2 < count_if (is_due (get_date_column "acm_alerts") 5) (rows_of stores.db))
    × (count_if (is_due (get_date_column "acm_alerts") 5) (rows_of archived.db) ≡ 0)
unfolding get_date_column
archive_table_loses_example =
    archive_table_loses database codec bucket_store isoformat config service draw "acm_alerts"
      "2024-01" 5 stores archived told (λ table. rows_of) is_due database-IsSql run_archives
      (ground arith)

new_keys :
    (n : ℕ) (d : List ℕ) (rs : List (Row ℕ))
    → query database codec bucket_store isoformat config service "acm_alerts" 5 stores.db ≡ some rs
    → database.delete_before "acm_alerts" (get_date_column "acm_alerts") 5 stores.db ≡ (some n, d)
    → AreFresh same_key (map codec.as_json rs) (rows_of d)
unfolding query_records_to_archive get_date_column
new_keys n d rs selected left =
    let the_rows : chunk ≡ rs = ground (arith, selected) in
    let the_rest : (9 ∷ []) ≡ d = ground (arith, left) in
    rw (← the_rows, ← the_rest) (refl, (refl, tt))

restore_archive-archive_table_example :
    (records : List (Row ℕ)) × (after : List ℕ) × (query database codec bucket_store isoformat
        config service "acm_alerts" 5 stores.db
      ≡ some records)
    × (2 ≡ length records)
    × (restore_archive database codec bucket_store isoformat config service "x" archived
        ≡ (some (map (λ (r : Row ℕ). r) records), record { db = after; bucket = archived.bucket }))
    × ((p : Row ℕ → Bool)
        → count_if p (rows_of after)
          ≡ count_if p (map (λ (r : Row ℕ). r) records) + count_if p (rows_of archived.db))
restore_archive-archive_table_example =
    restore_archive-archive_table database codec bucket_store isoformat config service draw
      "acm_alerts" "2024-01" 5 stores archived told rows_of same_key ("detected_at" ∷ [])
      codec-IsLossless bucket-IsConsistent database-IsTable new_keys run_archives refl
