-- ===== src/Archive/Storage.antt =====
-- Compression and the storage client (services/data-archival/compression.py, config.py and
-- storage_client.py). The JSON, gzip, zstandard and SHA-256 libraries are `Codec`, and S3 is
-- `ObjectStore`.
use Prim.Native.String.{◌++◌ as append_str}
use vox_guard.Base.{
  ℕ, ◌≡◌, String, Bool, true, false, Option, none, some, List, str_eq, if◌then◌else◌, map,
}
use vox_guard.Base.Dict.{Dict}

-- A row as the database driver hands it out.
abbrev pub Row : Type 0 → Type 0
Row V = Dict V

pub record ArchiveMetadata : Type 0 where
  pub archive_id : String
  pub table_name : String
  pub partition_key : String
  pub record_count : ℕ
  pub original_size_bytes : ℕ
  pub compressed_size_bytes : ℕ
  pub compression_type : String
  pub created_at : String
  pub checksum_sha256 : String
  pub s3_key : String
  pub retention_until : String

pub data CompressionType : Type 0 where
  gzip zstd uncompressed : CompressionType

-- `CompressionType.value`
abbrev pub type_name : CompressionType → String
type_name gzip = "gzip"
type_name zstd = "zstd"
type_name uncompressed = "none"

-- The libraries; none is an exception. `as_json` is what JSON keeps of a row.
pub record Codec (V B : Type 0) : Type 0 where
  pub dumps : List (Row V) → Option B
  pub loads : B → Option (List (Row V))
  pub as_json : Row V → Row V
  pub metadata_dumps : ArchiveMetadata → B
  pub metadata_loads : B → Option ArchiveMetadata
  pub gzip_compress : ℕ → B → Option B
  pub gzip_decompress : B → Option B
  pub zstd_compress : ℕ → B → Option B
  pub zstd_decompress : B → Option B
  pub sha256 : B → String
  pub size : B → ℕ

-- What is written is read back.
pub record IsLossless {V B : Type 0} (codec : Codec V B) : Type 0 where
  pub json :
      (rows : List (Row V)) (b : B)
      → codec.dumps rows ≡ some b
      → codec.loads b ≡ some (map codec.as_json rows)
  pub metadata : (m : ArchiveMetadata) → codec.metadata_loads (codec.metadata_dumps m) ≡ some m
  pub gzipped :
      (level : ℕ) (b c : B)
      → codec.gzip_compress level b ≡ some c
      → codec.gzip_decompress c ≡ some b
  pub zstandard :
      (level : ℕ) (b c : B)
      → codec.zstd_compress level b ≡ some c
      → codec.zstd_decompress c ≡ some b

-- S3; `put` says whether there was no `ClientError`, and none of `get` is one. The content type and
-- the labels that go with an object are left out.
pub record ObjectStore (O B : Type 0) : Type 0 where
  pub put : String → B → O → Bool × O
  pub get : String → O → Option B

-- An object that has been written is read, and no other object changes.
abbrev pub IsConsistent : {O B : Type 0} → ObjectStore O B → Type 0
IsConsistent {O} {B} store =
    (k j : String) (b : B) (s t : O)
    → store.put k b s ≡ (true, t)
    → store.get j t ≡ (if str_eq k j then some b else store.get j s)

-- `CompressionService`: the type and the level.
pub record CompressionService : Type 0 where
  pub compression_type : CompressionType
  pub compression_level : ℕ

-- `__init__`: without the library zstandard, gzip takes its place.
unfoldable pub new_compression : Bool → CompressionType → ℕ → CompressionService
new_compression zstd_available zstd level = record {
  compression_type = if zstd_available then zstd else gzip;
  compression_level = level;
}
new_compression zstd_available gzip level = record {
  compression_type = gzip;
  compression_level = level;
}
new_compression zstd_available uncompressed level = record {
  compression_type = uncompressed;
  compression_level = level;
}

module _ {V B : Type 0} (codec : Codec V B) where
  abbrev pub compress_as : CompressionType → ℕ → B → Option B
  compress_as uncompressed level b = some b
  compress_as gzip level b = codec.gzip_compress level b
  compress_as zstd level b = codec.zstd_compress level b

  unfoldable pub compress : CompressionService → B → Option B
  compress c b = compress_as c.compression_type c.compression_level b

  abbrev pub decompress_as : CompressionType → B → Option B
  decompress_as uncompressed b = some b
  decompress_as gzip b = codec.gzip_decompress b
  decompress_as zstd b = codec.zstd_decompress b

  unfoldable pub decompress : CompressionService → B → Option B
  decompress c b = decompress_as c.compression_type b

abbrev pub metadata_key : String → String
metadata_key archive_id = append_str "metadata/" (append_str archive_id ".json")

module _ {V B O : Type 0} (codec : Codec V B) (store : ObjectStore O B) where
  abbrev pub put_metadata : ArchiveMetadata → Bool × O → Bool × O
  put_metadata m (false, s) = (false, s)
  put_metadata m (true, s) = store.put (metadata_key m.archive_id) (codec.metadata_dumps m) s

  unfoldable pub upload_archive : B → ArchiveMetadata → O → Bool × O
  upload_archive data' m s = put_metadata m (store.put m.s3_key data' s)

  unfoldable pub download_archive : String → O → Option B
  download_archive s3_key s = store.get s3_key s

  abbrev pub read_metadata : Option B → Option ArchiveMetadata
  read_metadata none = none
  read_metadata (some b) = codec.metadata_loads b

  -- None stands for an exception as well: the callers treat both alike.
  unfoldable pub get_metadata : String → O → Option ArchiveMetadata
  get_metadata archive_id s = read_metadata (store.get (metadata_key archive_id) s)

  abbrev pub has_checksum : String → Option B → Bool
  has_checksum expected none = false
  has_checksum expected (some b) = str_eq (codec.sha256 b) expected

  unfoldable pub verify_integrity : String → String → O → Bool
  verify_integrity s3_key expected_checksum s = has_checksum expected_checksum (store.get s3_key s)
