-- ===== src/Ncc/Upload.antt =====
-- What an upload leaves on the server (services/ncc-integration/sftp_uploader.py).
use vox_guard.Base.{
  ℕ, ◌≡◌, ◌≢◌, refl, String, Bool, true, false, Option, none, some, List, [], ◌∷◌, All, arith, ap,
  sym, ◌∙◌,
}
use vox_guard.Ncc.Sftp.{
  Sftp, Local, remote_path_in, temp_path, size_is, clean_up, rename_if, publish, transfer,
  transfer_read, upload_file, note_failure, upload_each, upload_batch,
}

-- What the protocol says of the calls, where `view` is what a path holds: a call changes only the
-- paths that it names, a failed renaming changes none, and `stat` gives the size.
pub record IsServer {C R : Type 0} (sftp : Sftp C R) (files : Local C)
    (view : R → String → Option C) : Type 0 where
  pub put_others : (c : C) (p q : String) (r : R) → q ≢ p → view (sftp.put c p r).1 q ≡ view r q
  pub stat_size :
      (p : String) (r : R) (n : ℕ)
      → sftp.stat p r ≡ some n
      → (c : C) × (view r p ≡ some c) × (files.getsize c ≡ n)
  pub rename_moves :
      (p q : String) (r : R)
      → (sftp.rename p q r).0 ≡ true
      → view (sftp.rename p q r).1 q ≡ view r p
  pub rename_fails :
      (p q s : String) (r : R)
      → (sftp.rename p q r).0 ≡ false
      → view (sftp.rename p q r).1 s ≡ view r s
  pub rename_others :
      (p q s : String) (r : R) → s ≢ p → s ≢ q → view (sftp.rename p q r).1 s ≡ view r s
  pub remove_others : (p q : String) (r : R) → q ≢ p → view (sftp.remove p r) q ≡ view r q

module _ {C R : Type 0} (sftp : Sftp C R) (files : Local C) (view : R → String → Option C)
    (server : IsServer sftp files view) where
  -- From `r` to the state after a transfer: if it succeeds, the path holds a file of the size of
  -- the local one; if not, it holds what it held. All other paths but the temporary one are as
  -- they were.
  abbrev pub Transferred : ℕ → String → R → Bool × R → Type 0
  Transferred size path r (true, end) =
      ((c : C) × (view end path ≡ some c) × (files.getsize c ≡ size))
      × ((q : String) → q ≢ path → q ≢ temp_path path → view end q ≡ view r q)
  Transferred size path r (false, end) = (q : String) → q ≢ temp_path path → view end q ≡ view r q

  renamed-Transferred :
      (size : ℕ) (path : String) (r r' : R) (o : Bool × R)
      → ((q : String) → q ≢ temp_path path → view r' q ≡ view r q)
      → (sftp.stat (temp_path path) r' ≡ some size)
      → sftp.rename (temp_path path) path r' ≡ o
      → Transferred size path r (clean_up sftp files (temp_path path) o)
  renamed-Transferred size path r r' (true, end) same stat ran =
      let (c, held, sized) = server.stat_size (temp_path path) r' size stat in
      let done = ap (λ (o : Bool × R). o.0) ran in
      (
        (
          c,
          ap (λ (o : Bool × R). view o.1 path) (sym ran)
              ∙ (server.rename_moves (temp_path path) path r' done ∙ held),
          sized,
        ),
        λ q other temp.
            ap (λ (o : Bool × R). view o.1 q) (sym ran)
            ∙ (server.rename_others (temp_path path) path q r' temp other ∙ same q temp),
      )
  renamed-Transferred size path r r' (false, end) same stat ran = λ q other.
      server.remove_others (temp_path path) q end other
      ∙ (ap (λ (o : Bool × R). view o.1 q) (sym ran)
          ∙ (server.rename_fails (temp_path path) path q r' (ap (λ (o : Bool × R). o.0) ran)
              ∙ same q other))

  stat_of_size_is : (size : ℕ) (o : Option ℕ) → size_is sftp files size o ≡ true → o ≡ some size
  stat_of_size_is size none h = absurd (ground (arith, h))
  stat_of_size_is size (some n) h = ap some (ground (arith, h))

  published-Transferred :
      (size : ℕ) (path : String) (r r' : R) (b : Bool)
      → ((q : String) → q ≢ temp_path path → view r' q ≡ view r q)
      → size_is sftp files size (sftp.stat (temp_path path) r') ≡ b
      → Transferred size path r
          (clean_up sftp files (temp_path path) (rename_if sftp files b (temp_path path) path r'))
  published-Transferred size path r r' true same verified =
      renamed-Transferred size path r r' (sftp.rename (temp_path path) path r') same
        (stat_of_size_is size (sftp.stat (temp_path path) r') verified) refl
  published-Transferred size path r r' false same verified =
      λ q other. server.remove_others (temp_path path) q r' other ∙ same q other

  put-Transferred :
      (size : ℕ) (path : String) (r : R) (o : Bool × R)
      → ((q : String) → q ≢ temp_path path → view o.1 q ≡ view r q)
      → Transferred size path r (
          clean_up sftp files
            (temp_path path)
            (publish sftp files true size (temp_path path) path o))
  put-Transferred size path r (true, r') same =
      published-Transferred size path r r' (size_is sftp files size (sftp.stat (temp_path path) r'))
        same refl
  put-Transferred size path r (false, r') same =
      λ q other. server.remove_others (temp_path path) q r' other ∙ same q other

  -- The size of a local file that is there.
  abbrev pub size_of : Option C → ℕ
  size_of none = 0
  size_of (some c) = files.getsize c

  read-Transferred :
      (path : String) (r : R) (o : Option C)
      → Transferred (size_of o) path r (transfer_read sftp files true o path r)
  unfolding transfer
  read-Transferred path r none = λ q other. refl
  read-Transferred path r (some c) =
      put-Transferred (files.getsize c) path r (sftp.put c (temp_path path) r)
        (λ q other. server.put_others c (temp_path path) q r other)

  -- On a server that keeps to the protocol, a verified upload is all or nothing: if it succeeds, the
  -- remote path holds a file of the size of the local one and every other path but the temporary one
  -- is as it was; if it fails, at any of its steps, every path but the temporary one is as it was.
  pub upload_file-Transferred :
      (local_path name : String) (r : R)
      → Transferred
          (size_of (files.read local_path))
          (remote_path_in files.remote_dir name)
          r
          (upload_file sftp files local_path name true r)
  unfolding upload_file
  upload_file-Transferred local_path name r =
      read-Transferred (remote_path_in files.remote_dir name) r (files.read local_path)

  -- The path is neither a remote path of the batch nor a temporary one.
  abbrev pub IsApart : String → List (String × String) → Type 0
  IsApart q batch =
      All
        (λ (f : String × String).
          (q ≢ remote_path_in files.remote_dir f.1)
          × (q ≢ temp_path (remote_path_in files.remote_dir f.1)))
        batch

  apart :
      (size : ℕ) (path q : String) (r : R) (o : Bool × R)
      → q ≢ path
      → q ≢ temp_path path
      → Transferred size path r o
      → view o.1 q ≡ view r q
  apart size path q r (true, end) other temp h = h.1 q other temp
  apart size path q r (false, end) other temp h = h q temp

  note_failure-state :
      (name : String) (b : Bool) (o : List String × R) → (note_failure sftp files name b o).1 ≡ o.1
  note_failure-state name true (failed, r) = refl
  note_failure-state name false (failed, r) = refl

  -- A batch, whichever of its uploads fail, leaves every other path as it was.
  pub upload_batch-apart :
      (batch : List (String × String)) (q : String) (r : R)
      → IsApart q batch
      → view (upload_batch sftp files batch r).1 q ≡ view r q
  unfolding upload_batch upload_each
  upload_batch-apart [] q r h = refl
  upload_batch-apart ((local_path, name) ∷ rest) q r (first, others) =
      let o = upload_file sftp files local_path name true r in
      ap (λ end. view end q) (note_failure-state name o.0 (upload_each sftp files rest o.1))
      ∙ (upload_batch-apart rest q o.1 others
          ∙ apart _ (remote_path_in files.remote_dir name) q r o first.0 first.1
              (upload_file-Transferred local_path name r))
