-- ===== src/Ncc/Sftp.antt =====
-- `SftpUploader` (services/ncc-integration/sftp_uploader.py). The server and the local files are
-- parameters; `C` is the type of the contents of a file, `R` that of the state of the server.
use Prim.Native.String.{◌++◌ as append_str}
use vox_guard.Base.{
  ℕ, String, Bool, true, false, Option, none, some, List, [], ◌∷◌, ◌==◌, if◌then◌else◌,
}

-- The calls of paramiko; a Boolean says whether the call returns, and none is an exception of `stat`.
pub record Sftp (C R : Type 0) : Type 0 where
  pub put : C → String → R → Bool × R
  pub stat : String → R → Option ℕ
  pub rename : String → String → R → Bool × R
  pub remove : String → R → R

-- What the uploader reads of the local machine, and the directory on the server.
pub record Local (C : Type 0) : Type 0 where
  pub read : String → Option C
  pub getsize : C → ℕ
  pub remote_dir : String

abbrev pub remote_path_in : String → String → String
remote_path_in dir name = append_str dir (append_str "/" name)

abbrev pub temp_path : String → String
temp_path path = append_str path ".tmp"

module _ {C R : Type 0} (sftp : Sftp C R) (files : Local C) where
  abbrev pub size_is : ℕ → Option ℕ → Bool
  size_is size none = false
  size_is size (some n) = n == size

  -- The check of the size; false is an exception.
  abbrev pub is_verified : Bool → ℕ → String → R → Bool
  is_verified verify size path r = if verify then size_is size (sftp.stat path r) else true

  -- The handler removes the temporary file, and raises.
  abbrev pub clean_up : String → Bool × R → Bool × R
  clean_up temp (true, r) = (true, r)
  clean_up temp (false, r) = (false, sftp.remove temp r)

  abbrev pub rename_if : Bool → String → String → R → Bool × R
  rename_if true temp path r = sftp.rename temp path r
  rename_if false temp path r = (false, r)

  abbrev pub publish : Bool → ℕ → String → String → Bool × R → Bool × R
  publish verify size temp path (true, r) = rename_if (is_verified verify size temp r) temp path r
  publish verify size temp path (false, r) = (false, r)

  unfoldable pub transfer : Bool → C → String → R → Bool × R
  transfer verify content path r = clean_up (temp_path path) (
      publish verify (files.getsize content) (temp_path path) path
        (sftp.put content (temp_path path) r))

  abbrev pub transfer_read : Bool → Option C → String → R → Bool × R
  transfer_read verify none path r = (false, r)
  transfer_read verify (some content) path r = transfer verify content path r

  -- `upload_file`, on an open connection; false is the `SftpUploadError`.
  unfoldable pub upload_file : String → String → Bool → R → Bool × R
  unfolding transfer
  upload_file local_path name verify r =
      transfer_read verify (files.read local_path) (remote_path_in files.remote_dir name) r

  abbrev pub note_failure : String → Bool → List String × R → List String × R
  note_failure name true (failed, r) = (failed, r)
  note_failure name false (failed, r) = (name ∷ failed, r)

  -- The names of the files that failed.
  unfoldable pub upload_each : List (String × String) → R → List String × R
  upload_each [] r = ([], r)
  upload_each ((local_path, name) ∷ rest) r =
      let (ok, r') = upload_file local_path name true r in
      note_failure name ok (upload_each rest r')

  -- `upload_batch`: the names in the message of the exception, if there are any.
  unfoldable pub upload_batch : List (String × String) → R → List String × R
  upload_batch batch r = upload_each batch r
