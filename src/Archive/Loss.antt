-- ===== src/Archive/Loss.antt =====
-- What archiving loses (services/data-archival/archival_service.py).
use vox_guard.Base.{ℕ, ◌≤◌, ◌<◌, ◌≡◌, String, Bool, some, List, length, count_if, arith, ap, ◌∙◌}
use vox_guard.Archive.Storage.{Row, ArchiveMetadata, Codec, ObjectStore, CompressionService}
use vox_guard.Archive.Service.{
  Database, ArchivalConfig, Stores, Draw, get_date_column, query_records_to_archive,
  delete_archived_records,
}
use vox_guard.Archive.Run.{archive, archive_table-Run, committed-lem}

-- What the statements do to the rows of a table, where a row counts by its date column and the
-- cutoff.
pub record IsSql {D V : Type 0} (database : Database D V) (rows : String → D → List (Row V))
    (is_before : String → ℕ → Row V → Bool) : Type 0 where
  pub selects :
      (table column : String) (cutoff limit : ℕ) (d : D) (rs : List (Row V))
      → database.select_before table column cutoff limit d ≡ some rs
      → length rs ≤ limit
  pub deletes :
      (table column : String) (cutoff n : ℕ) (d e : D)
      → database.delete_before table column cutoff d ≡ (some n, e)
      → count_if (is_before column cutoff) (rows table e) ≡ 0
  pub commits : (table : String) (d : D) → rows table (database.commit d) ≡ rows table d

module _ {D V B O : Type 0} (database : Database D V) (codec : Codec V B) (store : ObjectStore O B)
    (isoformat : ℕ → String) (config : ArchivalConfig) (service : CompressionService) where
  module _ (t : Draw) (table partition : String) (cutoff : ℕ) (s end : Stores D O)
      (m : ArchiveMetadata) where
    -- When more rows are due than a chunk holds, an archive that succeeds holds a chunk at most,
    -- fewer rows than were due, and yet none of the rows that were due is left in the table.
    pub archive_table_loses :
        (rows : String → D → List (Row V)) (is_before : String → ℕ → Row V → Bool)
        → IsSql database rows is_before
        → archive database codec store isoformat config service t table partition cutoff s
          ≡ (some m, end)
        → config.chunk_size < count_if (is_before (get_date_column table) cutoff) (rows table s.db)
        → (m.record_count ≤ config.chunk_size)
          × (m.record_count < count_if (is_before (get_date_column table) cutoff) (rows table s.db))
          × (count_if (is_before (get_date_column table) cutoff) (rows table end.db) ≡ 0)
    unfolding query_records_to_archive delete_archived_records
    archive_table_loses rows is_before sql e many =
        let run =
          archive_table-Run database codec store isoformat config service t table partition cutoff s
            end m e in
        let few =
          sql.selects table (get_date_column table) cutoff config.chunk_size s.db run.records
            run.read in
        let (d, gone, kept) =
          committed-lem database codec store isoformat config service
            (database.delete_before table (get_date_column table) cutoff s.db) run.deleted_count
            end.db run.emptied in
        let none_left =
          sql.deletes table (get_date_column table) cutoff run.deleted_count s.db d gone in
        (
          ground (arith, few, run.told),
          ground (arith, few, many, run.told),
          ap (λ x. count_if (is_before (get_date_column table) cutoff) (rows table x)) kept
              ∙ (ap (count_if (is_before (get_date_column table) cutoff)) (sql.commits table d)
                  ∙ none_left),
        )
