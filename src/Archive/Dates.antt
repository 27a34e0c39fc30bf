-- ===== src/Archive/Dates.antt =====
-- A table of dates, what its statements do, and libraries that lose nothing, for the tests.
use vox_guard.Base.{
  any, leb, ◌&&◌, ℕ, zero, suc, ◌≤◌, ◌≡◌, refl, String, Bool, true, false, Option, none, some, List,
  [], ◌∷◌, map, ltb, if◌then◌else◌, length, count_if, arith, inl, inr, Bool-cases,
}
use vox_guard.Base.Dict.{Dict, lookup, insert, lookup-insert}
use vox_guard.Archive.Storage.{Row, ArchiveMetadata, Codec, IsLossless, ObjectStore, IsConsistent}
use vox_guard.Archive.Service.{Database}
use vox_guard.Archive.Insertion.{HasColumns, HaveColumns, IsTable, values_of}
use vox_guard.Archive.Loss.{IsSql}

abbrev before : Option ℕ → ℕ → Bool
before none cutoff = false
before (some date) cutoff = ltb date cutoff

abbrev pub is_due : String → ℕ → Row ℕ → Bool
is_due column cutoff r = before (lookup column r) cutoff

abbrev pub row : ℕ → Row ℕ
row date = ("detected_at", date) ∷ []

abbrev select : String → ℕ → ℕ → List ℕ → List (Row ℕ)
select column cutoff zero rs = []
select column cutoff (suc n) [] = []
select column cutoff (suc n) (r ∷ rs) =
    if is_due column cutoff (row r)
    then row r ∷ select column cutoff n rs
    else select column cutoff (suc n) rs

abbrev remove : String → ℕ → List ℕ → List ℕ
remove column cutoff [] = []
remove column cutoff (r ∷ rs) =
    let rest = remove column cutoff rs in if is_due column cutoff (row r) then rest else r ∷ rest

abbrev same : ℕ → ℕ → Bool
same a b = leb a b && leb b a

-- A date that is there is not inserted again.
abbrev take_row : List ℕ → List ℕ → Option ℕ × List ℕ
take_row [] ds = (none, ds)
take_row (v ∷ vs) ds = if any (same v) ds then (some 0, ds) else (some 1, v ∷ ds)

abbrev same_date : Option ℕ → Option ℕ → Bool
same_date none b = false
same_date (some a) none = false
same_date (some a) (some b) = same a b

abbrev pub same_key : Row ℕ → Row ℕ → Bool
same_key r q = same_date (lookup "detected_at" r) (lookup "detected_at" q)

-- One table of dates, which are the keys of its rows.
abbrev pub database : Database (List ℕ) ℕ
database = record {
  select_before = λ table column cutoff limit ds. some (select column cutoff limit ds);
  delete_before = λ table column cutoff ds. (some 0, remove column cutoff ds);
  insert_row = λ table columns values ds. take_row values ds;
  commit = λ ds. ds;
}

abbrev pub rows_of : List ℕ → List (Row ℕ)
rows_of ds = map row ds

length-select :
    (column : String) (cutoff n : ℕ) (rs : List ℕ) → length (select column cutoff n rs) ≤ n
length-select column cutoff zero rs = ground arith
length-select column cutoff (suc n) [] = ground arith
length-select column cutoff (suc n) (r ∷ rs) =
    ground (arith, length-select column cutoff n rs, length-select column cutoff (suc n) rs)

count_if-remove :
    (column : String) (cutoff : ℕ) (rs : List ℕ)
    → count_if (is_due column cutoff) (rows_of (remove column cutoff rs)) ≡ 0
count_if-remove column cutoff [] = refl
count_if-remove column cutoff (r ∷ rs) = ground (arith, count_if-remove column cutoff rs)

pub database-IsSql : IsSql database (λ table. rows_of) is_due
database-IsSql = record {
  selects = λ table column cutoff limit d rs e. ground (arith, length-select column cutoff limit d);
  deletes = λ table column cutoff n d e p. ground (arith, count_if-remove column cutoff d);
  commits = λ table d. refl;
}

-- What the libraries make of rows and metadata.
pub data Blob : Type 0 where
  rows : List (Row ℕ) → Blob
  metadata : ArchiveMetadata → Blob
  packed : Blob → Blob

abbrev load_rows : Blob → Option (List (Row ℕ))
load_rows (rows rs) = some rs
load_rows _ = none

abbrev load_metadata : Blob → Option ArchiveMetadata
load_metadata (metadata m) = some m
load_metadata _ = none

abbrev unpack : Blob → Option Blob
unpack (packed b) = some b
unpack _ = none

abbrev pub codec : Codec ℕ Blob
codec = record {
  dumps = λ rs. some (rows rs);
  loads = load_rows;
  as_json = λ r. r;
  metadata_dumps = metadata;
  metadata_loads = load_metadata;
  gzip_compress = λ level b. some (packed b);
  gzip_decompress = unpack;
  zstd_compress = λ level b. some (packed b);
  zstd_decompress = unpack;
  sha256 = λ b. "sum";
  size = λ b. 0;
}

map-same : (rs : List (Row ℕ)) → map (λ (r : Row ℕ). r) rs ≡ rs
map-same [] = refl
map-same (r ∷ rs) = ground (arith, map-same rs)

pub codec-IsLossless : IsLossless codec
codec-IsLossless = record {
  json = λ rs b e. ground (arith, map-same rs);
  metadata = λ m. refl;
  gzipped = λ level b c e. ground arith;
  zstandard = λ level b c e. ground arith;
}

abbrev pub bucket_store : ObjectStore (Dict Blob) Blob
bucket_store = record { put = λ k b o. (true, insert k b o); get = lookup }

pub bucket-IsConsistent : IsConsistent bucket_store
bucket-IsConsistent k j b s t e = ground (arith, lookup-insert k j b s)

select-HaveColumns :
    (column : String) (cutoff n : ℕ) (ds : List ℕ)
    → HaveColumns ("detected_at" ∷ []) (map (λ (r : Row ℕ). r) (select column cutoff n ds))
select-HaveColumns column cutoff zero ds = tt
select-HaveColumns column cutoff (suc n) [] = tt
select-HaveColumns column cutoff (suc n) (d ∷ ds) =
    elim (Bool-cases (is_due column cutoff (row d))) [
      | inl due ↦ rw due ((refl, (refl, tt)), select-HaveColumns column cutoff n ds)
      | inr recent ↦ rw recent (select-HaveColumns column cutoff (suc n) ds)
    ]

unknown :
    (v : ℕ) (ds : List ℕ) → count_if (same_key (row v)) (rows_of ds) ≡ 0 → any (same v) ds ≡ false
unknown v [] h = refl
unknown v (d ∷ ds) h = ground (arith, unknown v ds, h)

-- A row with a date of its own is taken.
abbrev IsTaken : List ℕ → Row ℕ → Type 0
IsTaken ds r =
    count_if (same_key r) (rows_of ds) ≡ 0
    → (n : ℕ) × (e : List ℕ) × (take_row (values_of r) ds ≡ (some n, e))
      × ((p : Row ℕ → Bool) → count_if p (rows_of e) ≡ count_if p (r ∷ rows_of ds))

takes_date : (v : ℕ) (ds : List ℕ) → IsTaken ds (row v)
takes_date v ds new = (1, v ∷ ds, rw (unknown v ds new) refl, λ p. refl)

takes_row : (r : Row ℕ) (ds : List ℕ) → HasColumns ("detected_at" ∷ []) r → IsTaken ds r
takes_row [] ds h = absurd (ground (arith, h.0))
takes_row ((c, v) ∷ []) ds h = rw (name h.0) (takes_date v ds)
  where
    name : {c d : String} → (c ∷ []) ≡ (d ∷ []) → c ≡ d
    name e = ground arith
takes_row ((c, v) ∷ e ∷ r) ds h = absurd (ground (arith, h.0))

pub database-IsTable : IsTable database codec rows_of same_key "acm_alerts" ("detected_at" ∷ [])
database-IsTable = record {
  selects = λ column cutoff limit d rs e.
      unsome (select column cutoff limit d) rs (select-HaveColumns column cutoff limit d) e;
  takes = λ r d h. takes_row r d h;
  commits = λ d. refl;
}
  where
    unsome :
        (xs ys : List (Row ℕ))
        → HaveColumns ("detected_at" ∷ []) (map (λ (r : Row ℕ). r) xs)
        → some xs ≡ some ys
        → HaveColumns ("detected_at" ∷ []) (map (λ (r : Row ℕ). r) ys)
    unsome xs ys h e = let same : xs ≡ ys = ground arith in rw (← same) h
