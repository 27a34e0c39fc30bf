-- ===== src/Sentinel/Ingest/Examples.antt =====
-- A file of two records, one of them twice, and a row that is no record, after which reading fails.
use vox_guard.Base.{
  ◌+◌, ◌≡◌, refl, String, true, false, ◌||◌, none, some, List, [], ◌∷◌, if◌then◌else◌, arith,
}
use vox_guard.Base.Int.{pos}
use vox_guard.Sentinel.Records.{CallRecord, make_call_record}
use vox_guard.Sentinel.Parser.{
  Libraries, Row, unreadable, bad_row, parse_csv, parse_row, parse_rows, validate_headers,
}
use vox_guard.Sentinel.Ingest.Dedupe.{Key, key_of, key_eq, has_key, eq_of_key_eq}
use vox_guard.Sentinel.Ingest.Database.{CallStore}
use vox_guard.Sentinel.Ingest.Endpoint.{IngestResponse, ingested, partial, ingest_cdr}
use vox_guard.Sentinel.Ingest.Accounts.{Works, ingest_cdr-accounts, ingest_cdr_again}

abbrev row : String → Row
row callee =
    ("call_date", some "2026-01-01")
    ∷ ("call_time", some "10:00:00")
    ∷ ("caller_number", some "+2348031234567")
    ∷ ("callee_number", some callee)
    ∷ ("duration_seconds", some "2")
    ∷ []

-- The file is the list of its rows.
abbrev libraries : Libraries (List Row)
libraries = record {
  read_csv = λ rows. some (
    "call_date" ∷ "call_time" ∷ "caller_number" ∷ "callee_number" ∷ "duration_seconds" ∷ [],
    rows,
    true,
  );
  strip = λ s. s;
  parse_time = λ date time. some 36000;
  parse_int = λ s. some (pos 2);
  is_other_digit = λ c. false;
}

abbrev file : List Row
file = row "+2348050000001" ∷ row "+2348050000002" ∷ row "+2348050000001" ∷ row "anonymous" ∷ []

abbrev call_to : String → CallRecord
call_to callee = record {
  call_timestamp = 36000;
  caller_number = "+2348031234567";
  callee_number = callee;
  duration_seconds = 2;
  call_direction = none;
  termination_cause = none;
  location_code = none;
}

abbrev others : List CallRecord
others = call_to "+2348050000002" ∷ call_to "+2348050000001" ∷ []

file_read :
    parse_csv libraries file ≡ (call_to "+2348050000001" ∷ others, bad_row 5 ∷ unreadable ∷ [])
unfolding parse_csv validate_headers parse_rows parse_row make_call_record
file_read = refl

-- The table is the list of its rows, no two of which have the same key.
abbrev call_rows : CallStore (List CallRecord)
call_rows = record {
  has_call = has_key;
  insert = λ r d. some (if has_key (key_of r) d then d else r ∷ d);
}

table_finds :
    (r : CallRecord) (d e : List CallRecord) (k : Key)
    → call_rows.insert r d ≡ some e
    → has_key k e ≡ (if key_eq k (key_of r) then true else has_key k d)
table_finds r d e k h = ground (arith, eq_of_key_eq k (key_of r))

call_rows-Works : Works call_rows
call_rows-Works = record {
  inserts = λ r d. (if has_key (key_of r) d then d else r ∷ d, refl);
  finds = table_finds;
}

ingest_cdr-accounts_example :
    (r : IngestResponse) × (e : List CallRecord) × (ingest_cdr call_rows libraries true file []
      ≡ (ingested r, e))
    × (r.records_processed ≡ 3)
    × (r.records_processed ≡ r.records_inserted + r.duplicates_skipped)
    × ((k : Key) → has_key k e ≡ (has_key k (call_to "+2348050000001" ∷ others) || has_key k []))
ingest_cdr-accounts_example =
    ingest_cdr-accounts call_rows call_rows-Works libraries file (call_to "+2348050000001") others
      (bad_row 5 ∷ unreadable ∷ []) [] file_read

ingest_cdr_again_example :
    ingest_cdr call_rows libraries true file (ingest_cdr call_rows libraries true file []).1 ≡ (
      ingested (record {
        status = partial;
        records_processed = 3;
        records_inserted = 0;
        duplicates_skipped = 3;
        errors = bad_row 5 ∷ unreadable ∷ [];
      }),
      (ingest_cdr call_rows libraries true file []).1,
    )
ingest_cdr_again_example =
    ingest_cdr_again call_rows call_rows-Works libraries file (call_to "+2348050000001") others
      (bad_row 5 ∷ unreadable ∷ []) [] (ingest_cdr call_rows libraries true file []).1 file_read
      refl
