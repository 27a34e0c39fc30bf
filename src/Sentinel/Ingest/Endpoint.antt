-- ===== src/Sentinel/Ingest/Endpoint.antt =====
-- `ingest_cdr` (services/sip-processor/app/sentinel/routes.py).
use vox_guard.Base.{
  ℕ, ◌+◌, ◌-◌, Bool, Option, none, some, List, [], ◌∷◌, ltb, if◌then◌else◌, length,
}
use vox_guard.Sentinel.Records.{CallRecord}
use vox_guard.Sentinel.Parser.{Libraries, ParseError, parse_csv}
use vox_guard.Sentinel.Ingest.Dedupe.{deduplicate}
use vox_guard.Sentinel.Ingest.Database.{CallStore, check_duplicates, insert_call_records}

pub data IngestStatus : Type 0 where
  success partial failed : IngestStatus

-- `CDRIngestResponse`, without the time that the request took.
pub record IngestResponse : Type 0 where
  pub status : IngestStatus
  pub records_processed : ℕ
  pub records_inserted : ℕ
  pub duplicates_skipped : ℕ
  pub errors : List ParseError

-- The reply, or the `HTTPException` with 400 or 500.
pub data Reply : Type 0 where
  ingested : IngestResponse → Reply
  bad_request server_error : Reply

abbrev pub inserted :
    {D : Type 0} → List CallRecord → List ParseError → ℕ → Option ℕ × D → Reply × D
inserted records errors skipped (none, d) = (server_error, d)
inserted records errors skipped (some n, d) = (
  ingested (record {
    status = if ltb 0 n then success else partial;
    records_processed = length records;
    records_inserted = n;
    duplicates_skipped = skipped;
    errors = errors;
  }),
  d,
)

module _ {D : Type 0} (store : CallStore D) where
  unfoldable pub store_records : List CallRecord → List ParseError → D → Reply × D
  store_records records errors d =
      let (unique, csv_duplicates) = deduplicate records in
      let new = check_duplicates store unique d in
      inserted records errors (csv_duplicates + (length unique - length new))
        (insert_call_records store new d)

  abbrev pub parsed : List CallRecord × List ParseError → D → Reply × D
  parsed ([], e ∷ errors) d = (
    ingested (record {
      status = failed;
      records_processed = 0;
      records_inserted = 0;
      duplicates_skipped = 0;
      errors = e ∷ errors;
    }),
    d,
  )
  parsed ([], []) d = store_records [] [] d
  parsed (r ∷ rs, errors) d = store_records (r ∷ rs) errors d

  -- `is_csv` says whether the name of the file ends in `.csv`.
  unfoldable pub ingest_cdr : {B : Type 0} → Libraries B → Bool → B → D → Reply × D
  ingest_cdr libraries is_csv content d =
      if is_csv then parsed (parse_csv libraries content) d else (bad_request, d)
