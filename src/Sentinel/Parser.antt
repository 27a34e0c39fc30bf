-- ===== src/Sentinel/Parser.antt =====
-- `CDRParser` (services/sip-processor/app/sentinel/parser.py). The decoding of the file and the
-- reading of CSV, of times and of integers are parameters.
use vox_guard.Base.{
  ℕ, ◌+◌, String, Bool, Option, none, some, List, [], ◌∷◌, any, str_eq, if◌then◌else◌,
}
use vox_guard.Base.Int.{ℤ}
use vox_guard.Base.Dict.{Dict, lookup}
use vox_guard.Base.Options.{◌>>=◌}
use vox_guard.Sentinel.Records.{CallRecord, make_call_record}

-- A row of `DictReader`: a column that the row is too short for is None.
abbrev pub Row : Type 0
Row = Dict (Option String)

-- What the parser takes from Python: none is an exception. `read_csv` decodes the bytes and reads
-- the header; it gives the rows that the reader hands out, and whether it raises after these.
pub record Libraries (B : Type 0) : Type 0 where
  pub read_csv : B → Option (List String × List Row × Bool)
  pub strip : String → String
  pub parse_time : String → String → Option ℕ
  pub parse_int : String → Option ℤ
  pub is_other_digit : ℕ → Bool

-- The messages are left out, but for the missing fields and the number of the row.
pub data ParseError : Type 0 where
  no_headers unreadable : ParseError
  missing_fields : List String → ParseError
  bad_row : ℕ → ParseError

abbrev pub required_fields : List String
required_fields =
    "call_date" ∷ "call_time" ∷ "caller_number" ∷ "callee_number" ∷ "duration_seconds" ∷ []

abbrev pub missing_of : List String → List String → List String
missing_of [] headers = []
missing_of (f ∷ fs) headers =
    let rest = missing_of fs headers in if any (str_eq f) headers then rest else f ∷ rest

abbrev pub missing_error : List String → List ParseError
missing_error [] = []
missing_error (f ∷ fs) = missing_fields (f ∷ fs) ∷ []

-- `_validate_headers`: the errors that it adds; it returns whether there are none.
unfoldable pub validate_headers : List String → List ParseError
validate_headers [] = no_headers ∷ []
validate_headers (h ∷ hs) = missing_error (missing_of required_fields (h ∷ hs))

abbrev pub join : {A : Type 0} → Option (Option A) → Option A
join none = none
join (some o) = o

module _ {B : Type 0} (libraries : Libraries B) where
  -- `row[name]`, where it is used as a text.
  abbrev pub field : Row → String → Option String
  field row name = join (lookup name row)

  abbrev pub or_none : String → Option String
  or_none s = if str_eq s "" then none else some s

  abbrev pub optional_text : Option (Option String) → Option (Option String)
  optional_text none = some none
  optional_text (some none) = none
  optional_text (some (some s)) = some (or_none (libraries.strip s))

  -- `row.get(name, '').strip() or None`
  abbrev pub optional_field : Row → String → Option (Option String)
  optional_field row name = optional_text (lookup name row)

  -- `_parse_row`; none is an exception.
  unfoldable pub parse_row : Row → Option CallRecord
  parse_row row = do
    call_date ← field row "call_date"
    call_time ← field row "call_time"
    call_timestamp ← libraries.parse_time (libraries.strip call_date) (libraries.strip call_time)
    duration ← field row "duration_seconds"
    duration_seconds ← libraries.parse_int duration
    caller ← field row "caller_number"
    callee ← field row "callee_number"
    direction ← optional_field row "call_direction"
    cause ← optional_field row "termination_cause"
    location ← optional_field row "location_code"
    make_call_record libraries.is_other_digit call_timestamp (libraries.strip caller)
        (libraries.strip callee) duration_seconds direction cause location

  abbrev pub add_row :
      ℕ → Option CallRecord → List CallRecord × List ParseError → List CallRecord × List ParseError
  add_row n (some r) (records, errors) = (r ∷ records, errors)
  add_row n none (records, errors) = (records, bad_row n ∷ errors)

  -- The loop over the rows, the first of which has the number `n`; `raises` says whether the reader
  -- raises after them, which keeps the records that have been read.
  unfoldable pub parse_rows : Bool → ℕ → List Row → List CallRecord × List ParseError
  parse_rows raises n [] = ([], if raises then unreadable ∷ [] else [])
  parse_rows raises n (row ∷ rows) = add_row n (parse_row row) (parse_rows raises (n + 1) rows)

  abbrev pub parse_body : List ParseError → List Row → Bool → List CallRecord × List ParseError
  parse_body [] rows raises = parse_rows raises 2 rows
  parse_body (e ∷ errors) rows raises = ([], e ∷ errors)

  abbrev pub parse_read : Option (List String × List Row × Bool) → List CallRecord × List ParseError
  parse_read none = ([], unreadable ∷ [])
  parse_read (some (headers, rows, raises)) = parse_body (validate_headers headers) rows raises

  unfoldable pub parse_csv : B → List CallRecord × List ParseError
  parse_csv content = parse_read (libraries.read_csv content)
