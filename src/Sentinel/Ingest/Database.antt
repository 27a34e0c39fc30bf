-- ===== src/Sentinel/Ingest/Database.antt =====
-- `SentinelDatabase` (services/sip-processor/app/sentinel/database.py), for the records of calls.
use vox_guard.Base.{ℕ, ◌+◌, Bool, Option, none, some, List, [], ◌∷◌, if◌then◌else◌, length}
use vox_guard.Base.Batches.{batches}
use vox_guard.Sentinel.Records.{CallRecord}
use vox_guard.Sentinel.Ingest.Dedupe.{Key, key_of}

-- The two statements, on a database in state `D`; none of `insert` is an exception.
pub record CallStore (D : Type 0) : Type 0 where
  pub has_call : Key → D → Bool
  pub insert : CallRecord → D → Option D

module _ {D : Type 0} (store : CallStore D) where
  unfoldable pub check_duplicates : List CallRecord → D → List CallRecord
  check_duplicates [] d = []
  check_duplicates (r ∷ rs) d =
      let rest = check_duplicates rs d in if store.has_call (key_of r) d then rest else r ∷ rest

  abbrev pub insert_next : (D → Option D) → Option D → Option D
  insert_next k none = none
  insert_next k (some d) = k d

  -- One transaction: an exception undoes all of it.
  unfoldable pub insert_batch : List CallRecord → D → Option D
  insert_batch [] d = some d
  insert_batch (r ∷ rs) d = insert_next (insert_batch rs) (store.insert r d)

  abbrev pub after_batch : ℕ → (ℕ → D → Option ℕ × D) → Option D → D → Option ℕ × D
  after_batch n k none d = (none, d)
  after_batch n k (some e) d = k n e

  -- The batches one by one; none is an exception, before which the earlier batches stay.
  unfoldable pub insert_batches : List (List CallRecord) → ℕ → D → Option ℕ × D
  insert_batches [] n d = (some n, d)
  insert_batches (b ∷ bs) n d = after_batch (n + length b) (insert_batches bs) (insert_batch b d) d

  -- A row that is there already is not inserted and is counted all the same.
  unfoldable pub insert_call_records : List CallRecord → D → Option ℕ × D
  insert_call_records records d = insert_batches (batches 1000 records) 0 d
