-- ===== src/Archive/Restore.antt =====
-- What archiving keeps (services/data-archival/archival_service.py and storage_client.py).
use vox_guard.Base.{
  ℕ, ◌+◌, ◌≡◌, refl, String, Bool, true, false, Option, some, List, map, str_eq, if◌then◌else◌,
  length, count_if, arith, ap, ◌∙◌,
}
use text.Mathlib.TextPositions.{eq_refl}
use vox_guard.Archive.Storage.{
  Row, ArchiveMetadata, CompressionType, gzip, zstd, uncompressed, Codec, IsLossless, ObjectStore,
  IsConsistent, CompressionService, compress, decompress, compress_as, decompress_as,
  upload_archive, download_archive, get_metadata, metadata_key, read_metadata, put_metadata,
}
use vox_guard.Archive.Service.{
  Database, ArchivalConfig, Stores, Draw, get_date_column, query_records_to_archive,
  delete_archived_records, inserted, insert_restored_records, downloaded, restore_archive,
}
use vox_guard.Archive.Insertion.{AreFresh, AreFresh-counts, IsTable, insert_restored_records-Added}
use vox_guard.Archive.Run.{committed-lem, query, archive, archive_table-Run}

decompress-compress :
    {V B : Type 0} (codec : Codec V B) (service : CompressionService) (b c : B)
    → IsLossless codec
    → compress codec service b ≡ some c
    → decompress codec service c ≡ some b
unfolding compress decompress
decompress-compress codec service b c h e = by_type service.compression_type e
  where
    by_type :
        (t : CompressionType)
        → compress_as codec t service.compression_level b ≡ some c
        → decompress_as codec t c ≡ some b
    by_type gzip p = h.gzipped service.compression_level b c p
    by_type zstd p = h.zstandard service.compression_level b c p
    by_type uncompressed p = ground arith

module _ {D V B O : Type 0} (database : Database D V) (codec : Codec V B) (store : ObjectStore O B)
    (isoformat : ℕ → String) (config : ArchivalConfig) (service : CompressionService) where
  -- The rows are inserted into the table, and returned if no column is missing.
  abbrev insert_back : String → List (Row V) → Stores D O → Option (List (Row V)) × Stores D O
  insert_back table records x =
      inserted database codec store isoformat config service records x.bucket
        (insert_restored_records database codec store isoformat config service table records x.db)

  module _ (t : Draw) (table partition : String) (cutoff : ℕ) (s end : Stores D O)
      (m : ArchiveMetadata) where
    put_metadata-lem :
        (r : Bool × O) (n : ArchiveMetadata) (o : O)
        → put_metadata codec store n r ≡ (true, o)
        → (i : O) × (r ≡ (true, i))
          × (store.put (metadata_key n.archive_id) (codec.metadata_dumps n) i ≡ (true, o))
    put_metadata-lem (false, i) n o p = absurd (ground arith)
    put_metadata-lem (true, i) n o p = (i, refl, p)

    -- Both objects are in the bucket after an upload.
    upload_archive-found :
        (n : ArchiveMetadata) (data' : B) (o u : O)
        → IsConsistent store
        → str_eq (metadata_key n.archive_id) n.s3_key ≡ false
        → upload_archive codec store data' n o ≡ (true, u)
        → (store.get (metadata_key n.archive_id) u ≡ some (codec.metadata_dumps n))
          × (store.get n.s3_key u ≡ some data')
    unfolding upload_archive
    upload_archive-found n data' o u h ne e =
        let (i, first, second) = put_metadata-lem (store.put n.s3_key data' o) n u e in
        let key = metadata_key n.archive_id in
        (
          h key key (codec.metadata_dumps n) i u second
              ∙ ap (λ b. if b then some (codec.metadata_dumps n) else store.get key i)
                  (eq_refl key),
          h key n.s3_key (codec.metadata_dumps n) i u second
              ∙ (ap (λ b. if b then some (codec.metadata_dumps n) else store.get n.s3_key i) ne
                  ∙ (h n.s3_key n.s3_key data' o i first
                      ∙ ap (λ b. if b then some data' else store.get n.s3_key o)
                          (eq_refl n.s3_key))),
        )

    get_metadata-found :
        (o : O)
        → IsLossless codec
        → store.get (metadata_key m.archive_id) o ≡ some (codec.metadata_dumps m)
        → get_metadata codec store m.archive_id o ≡ some m
    unfolding get_metadata
    get_metadata-found o h e = ap (read_metadata codec store) e ∙ h.metadata m

    downloaded-found :
        (records : List (Row V)) (json data' : B)
        → IsLossless codec
        → m.table_name ≡ table
        → str_eq (codec.sha256 data') m.checksum_sha256 ≡ true
        → decompress codec service data' ≡ some json
        → codec.loads json ≡ some (map codec.as_json records)
        → downloaded database codec store isoformat config service m (some data') end
          ≡ insert_back table (map codec.as_json records) end
    downloaded-found records json data' h name sum unpacked loaded =
        rw (sum, unpacked, loaded, name) refl

    -- An archive that has succeeded holds the rows that the query gave, and restoring it hands these
    -- rows, as JSON keeps them, to the insertion; the deletion of the archive has been committed.
    restore_archive-insert_back :
        IsLossless codec
        → IsConsistent store
        → archive database codec store isoformat config service t table partition cutoff s
          ≡ (some m, end)
        → str_eq (metadata_key m.archive_id) m.s3_key ≡ false
        → (records : List (Row V)) × (n : ℕ) × (d : D) × (query database codec store isoformat
              config service table cutoff s.db
            ≡ some records)
          × (database.delete_before table (get_date_column table) cutoff s.db ≡ (some n, d))
          × (end.db ≡ database.commit d)
          × (m.record_count ≡ length records)
          × (restore_archive database codec store isoformat config service m.archive_id end
              ≡ insert_back table (map codec.as_json records) end)
    unfolding restore_archive download_archive delete_archived_records
    restore_archive-insert_back lossless consistent e ne =
        let run =
          archive_table-Run database codec store isoformat config service t table partition cutoff s
            end m e in
        let (has_metadata, has_data) =
          upload_archive-found m run.data' s.bucket end.bucket consistent ne run.stored in
        let (d, gone, kept) =
          committed-lem database codec store isoformat config service
            (database.delete_before table (get_date_column table) cutoff s.db) run.deleted_count
            end.db run.emptied in
        (
          run.records,
          run.deleted_count,
          d,
          run.read,
          gone,
          kept,
          ap (λ (n : ArchiveMetadata). n.record_count) run.told,
          rw (get_metadata-found end.bucket lossless has_metadata, has_data)
              (downloaded-found run.records run.json run.data' lossless
                (ap (λ (n : ArchiveMetadata). n.table_name) run.told)
                (ap (λ (n : ArchiveMetadata). str_eq (codec.sha256 run.data') n.checksum_sha256)
                    run.told
                  ∙ eq_refl (codec.sha256 run.data'))
                (decompress-compress codec service run.json run.data' lossless run.packed)
                (lossless.json run.records run.json run.dumped)),
        )

    -- An archive that has succeeded can be restored: it holds the rows that the query gave, as many as
    -- its metadata say, and restoring it by its identifier finds its metadata, passes the check of
    -- the sum, and returns those rows as JSON keeps them. Afterwards they are in the table, each as
    -- often as it was archived, beside the rows that were there. The libraries lose nothing, the
    -- bucket keeps what is written, the two keys of the archive differ, and the table has these
    -- columns and takes a row whose key is new, as the keys of the selected rows are once they have
    -- been deleted.
    pub restore_archive-archive_table :
        (rows : D → List (Row V)) (same_key : Row V → Row V → Bool) (columns : List String)
        → IsLossless codec
        → IsConsistent store
        → IsTable database codec rows same_key table columns
        → ((n : ℕ) (d : D) (rs : List (Row V))
            → query database codec store isoformat config service table cutoff s.db ≡ some rs
            → database.delete_before table (get_date_column table) cutoff s.db ≡ (some n, d)
            → AreFresh same_key (map codec.as_json rs) (rows d))
        → archive database codec store isoformat config service t table partition cutoff s
          ≡ (some m, end)
        → str_eq (metadata_key m.archive_id) m.s3_key ≡ false
        → (records : List (Row V)) × (after : D) × (query database codec store isoformat config
              service table cutoff s.db
            ≡ some records)
          × (m.record_count ≡ length records)
          × (restore_archive database codec store isoformat config service m.archive_id end
              ≡ (some (map codec.as_json records), record { db = after; bucket = end.bucket }))
          × ((p : Row V → Bool)
              → count_if p (rows after)
                ≡ count_if p (map codec.as_json records) + count_if p (rows end.db))
    unfolding query_records_to_archive
    restore_archive-archive_table rows same_key columns lossless consistent is_table new e ne =
        let (records, n, d, read, gone, kept, count, restored) =
          restore_archive-insert_back lossless consistent e ne in
        let (k, after, ran, adds) =
          insert_restored_records-Added database codec store isoformat config service rows same_key
            table columns is_table (map codec.as_json records) end.db
            (is_table.selects (get_date_column table) cutoff config.chunk_size s.db records read)
            (AreFresh-counts same_key (map codec.as_json records) (rows d) (rows end.db)
              (λ p. ap (λ x. count_if p (rows x)) kept ∙ ap (count_if p) (is_table.commits d))
              (new n d records read gone)) in
        (
          records,
          after,
          read,
          count,
          restored
              ∙ ap
                  (inserted database codec store isoformat config service
                    (map codec.as_json records) end.bucket)
                  ran,
          adds,
        )
