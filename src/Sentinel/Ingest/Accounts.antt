-- ===== src/Sentinel/Ingest/Accounts.antt =====
-- What an ingestion has done (services/sip-processor/app/sentinel/routes.py).
use vox_guard.Base.{
  ℕ, suc, ◌+◌, ◌-◌, ◌≤◌, ◌≡◌, refl, true, ◌||◌, some, List, [], ◌∷◌, ◌++◌, ltb, if◌then◌else◌,
  length, length-append, arith, ap, sym, ◌∙◌, Bool-cases, inl, inr,
}
use vox_guard.Base.Batches.{batches, concat, concat-batches}
use vox_guard.Sentinel.Records.{CallRecord}
use vox_guard.Sentinel.Parser.{Libraries, ParseError, parse_csv}
use vox_guard.Sentinel.Ingest.Dedupe.{
  Key, key_of, key_eq, is_seen, has_key, key_eq_refl, eq_of_key_eq, dedupe_from, deduplicate,
  dedupe_from-length,
}
use vox_guard.Sentinel.Ingest.Database.{
  CallStore, check_duplicates, insert_next, insert_batch, insert_batches, insert_call_records,
}
use vox_guard.Sentinel.Ingest.Endpoint.{
  success, partial, IngestResponse, Reply, ingested, inserted, store_records, parsed, ingest_cdr,
}

-- A table where every insertion works: a call that has been inserted is found, and no other.
pub record Works {D : Type 0} (store : CallStore D) : Type 0 where
  pub inserts : (r : CallRecord) (d : D) → (e : D) × (store.insert r d ≡ some e)
  pub finds :
      (r : CallRecord) (d e : D) (k : Key)
      → store.insert r d ≡ some e
      → store.has_call k e ≡ (if key_eq k (key_of r) then true else store.has_call k d)

dedupe_from-has_key :
    (k : Key) (seen : List Key) (rs : List CallRecord)
    → (has_key k (dedupe_from seen rs).0 || is_seen k seen) ≡ (has_key k rs || is_seen k seen)
unfolding dedupe_from
dedupe_from-has_key k seen [] = refl
dedupe_from-has_key k seen (r ∷ rs) = elim (Bool-cases (is_seen (key_of r) seen)) [
  | inl known ↦ rw known (ground (arith, dedupe_from-has_key k seen rs, eq_of_key_eq k (key_of r)))
  | inr fresh ↦ rw fresh (ground (arith, dedupe_from-has_key k (key_of r ∷ seen) rs))
]

module _ {D : Type 0} (store : CallStore D) (works : Works store) where
  -- After `rs` have been added to `d`, a call is found in `e` if it is one of the two.
  abbrev Adds : List CallRecord → D → D → Type 0
  Adds rs d e = (k : Key) → store.has_call k e ≡ (has_key k rs || store.has_call k d)

  insert_batch-Adds :
      (rs : List CallRecord) (d : D) → (e : D) × (insert_batch store rs d ≡ some e) × Adds rs d e
  unfolding insert_batch
  insert_batch-Adds [] d = (d, refl, λ k. refl)
  insert_batch-Adds (r ∷ rs) d =
      let (c, first) = works.inserts r d in
      let (e, rest, adds) = insert_batch-Adds rs c in
      (
        e,
        ap (insert_next store (insert_batch store rs)) first ∙ rest,
        λ k. ground (arith, adds k, works.finds r d c k first),
      )

  has_key-append :
      (k : Key) (rs ss : List CallRecord) → has_key k (rs ++ ss) ≡ (has_key k rs || has_key k ss)
  has_key-append k [] ss = refl
  has_key-append k (r ∷ rs) ss = ground (arith, has_key-append k rs ss)

  insert_batches-Adds :
      (bs : List (List CallRecord)) (n : ℕ) (d : D)
      → (e : D) × (insert_batches store bs n d ≡ (some (n + length (concat bs)), e))
        × Adds (concat bs) d e
  unfolding insert_batches
  insert_batches-Adds [] n d = (d, ground arith, λ k. refl)
  insert_batches-Adds (b ∷ bs) n d =
      let (c, first, adds) = insert_batch-Adds b d in
      let (e, rest, more) = insert_batches-Adds bs (n + length b) c in
      (
        e,
        rw first (rest ∙ ap (λ m. (some m, e)) (omega (arith, length-append b (concat bs)))),
        λ k. ground (arith, adds k, more k, has_key-append k b (concat bs)),
      )

  insert_call_records-Adds :
      (rs : List CallRecord) (d : D)
      → (e : D) × (insert_call_records store rs d ≡ (some (length rs), e)) × Adds rs d e
  unfolding insert_call_records
  insert_call_records-Adds rs d =
      let (e, ran, adds) = insert_batches-Adds (batches 1000 rs) 0 d in
      let same : concat (batches 1000 rs) ≡ rs = concat-batches 999 rs in
      (
        e,
        ran ∙ ap (λ l. (some l, e)) (omega (arith, ap length same)),
        λ k. adds k ∙ ap (λ l. has_key k l || store.has_call k d) same,
      )

  check_duplicates-has_key :
      (k : Key) (rs : List CallRecord) (d : D)
      → (has_key k (check_duplicates store rs d) || store.has_call k d)
        ≡ (has_key k rs || store.has_call k d)
  unfolding check_duplicates
  check_duplicates-has_key k [] d = refl
  check_duplicates-has_key k (r ∷ rs) d = elim (Bool-cases (store.has_call (key_of r) d)) [
    | inl known ↦
        rw known (ground (arith, check_duplicates-has_key k rs d, eq_of_key_eq k (key_of r)))
    | inr fresh ↦ rw fresh (ground (arith, check_duplicates-has_key k rs d))
  ]

  length-check_duplicates-le :
      (rs : List CallRecord) (d : D) → length (check_duplicates store rs d) ≤ length rs
  unfolding check_duplicates
  length-check_duplicates-le [] d = omega arith
  length-check_duplicates-le (r ∷ rs) d = ground (arith, length-check_duplicates-le rs d)

  check_duplicates-all_known :
      (rs : List CallRecord) (d : D)
      → ((k : Key) → has_key k rs ≡ true → store.has_call k d ≡ true)
      → check_duplicates store rs d ≡ []
  unfolding check_duplicates
  check_duplicates-all_known [] d h = refl
  check_duplicates-all_known (r ∷ rs) d h =
      let known : store.has_call (key_of r) d ≡ true =
        h (key_of r) (ground (arith, key_eq_refl (key_of r))) in
      rw known (check_duplicates-all_known rs d (λ k e. h k (ground arith)))

  deduplicate-has_key :
      (k : Key) (rs : List CallRecord) → has_key k (deduplicate rs).0 ≡ has_key k rs
  unfolding deduplicate
  deduplicate-has_key k rs = ground (arith, dedupe_from-has_key k [] rs)

  new_records-has_key :
      (k : Key) (rs : List CallRecord) (d : D)
      → (has_key k (check_duplicates store (deduplicate rs).0 d) || store.has_call k d)
        ≡ (has_key k rs || store.has_call k d)
  new_records-has_key k rs d =
      check_duplicates-has_key k (deduplicate rs).0 d
      ∙ ap (λ b. b || store.has_call k d) (deduplicate-has_key k rs)

  store_records-accounts :
      (records : List CallRecord) (errors : List ParseError) (d : D)
      → (r : IngestResponse) × (e : D) × (store_records store records errors d ≡ (ingested r, e))
        × (r.records_processed ≡ length records)
        × (r.records_processed ≡ r.records_inserted + r.duplicates_skipped)
        × ((k : Key) → store.has_call k e ≡ (has_key k records || store.has_call k d))
  unfolding store_records deduplicate
  store_records-accounts records errors d =
      let unique = (deduplicate records).0 in
      let new = check_duplicates store unique d in
      let (e, ran, adds) = insert_call_records-Adds new d in
      let skipped = (deduplicate records).1 + (length unique - length new) in
      (
        record {
          status = if ltb 0 (length new) then success else partial;
          records_processed = length records;
          records_inserted = length new;
          duplicates_skipped = skipped;
          errors = errors;
        },
        e,
        ap (inserted records errors skipped) ran,
        refl,
        omega (arith, dedupe_from-length [] records, length-check_duplicates-le unique d),
        λ k. adds k ∙ new_records-has_key k records d,
      )

  insert_call_records_none : (d : D) → insert_call_records store [] d ≡ (some 0, d)
  unfolding insert_call_records insert_batches batches
  insert_call_records_none d = refl

  nothing_new :
      (records : List CallRecord) (errors : List ParseError) (d e : D)
      → (store_records store records errors d).1 ≡ e
      → check_duplicates store (deduplicate records).0 e ≡ []
  nothing_new records errors d e same =
      let (r, f, ran, _, _, found) = store_records-accounts records errors d in
      let reached : f ≡ e = sym (ap (λ (x : Reply × D). x.1) ran) ∙ same in
      check_duplicates-all_known (deduplicate records).0 e (λ k known.
        ap (store.has_call k) (sym reached)
        ∙ (found k ∙ ground (arith, deduplicate-has_key k records)))

  store_records_again :
      (records : List CallRecord) (errors : List ParseError) (d e : D)
      → (store_records store records errors d).1 ≡ e
      → store_records store records errors e ≡ (
        ingested (record {
          status = partial;
          records_processed = length records;
          records_inserted = 0;
          duplicates_skipped = length records;
          errors = errors;
        }),
        e,
      )
  unfolding store_records
  store_records_again records errors d e same =
      rw (nothing_new records errors d e same, insert_call_records_none e)
        (ap
          (λ n. (
            ingested (record {
              status = partial;
              records_processed = length records;
              records_inserted = 0;
              duplicates_skipped = n;
              errors = errors;
            }),
            e,
          ))
          count)
    where
      count : (deduplicate records).1 + (length (deduplicate records).0 - 0) ≡ length records
      count = unfold deduplicate in omega (arith, dedupe_from-length [] records)

  module _ {B : Type 0} (libraries : Libraries B) (content : B) (first : CallRecord)
      (others : List CallRecord) (errors : List ParseError) where
    -- Ingesting a file from which some record can be read, into a table where insertions work:
    -- the records processed are those that could be read, each of them is inserted or counted as
    -- skipped, and afterwards exactly their calls and those that were there before are found.
    pub ingest_cdr-accounts :
        (d : D)
        → parse_csv libraries content ≡ (first ∷ others, errors)
        → (r : IngestResponse) × (e : D) × (ingest_cdr store libraries true content d
            ≡ (ingested r, e))
          × (r.records_processed ≡ suc (length others))
          × (r.records_processed ≡ r.records_inserted + r.duplicates_skipped)
          × ((k : Key) → store.has_call k e ≡ (has_key k (first ∷ others) || store.has_call k d))
    unfolding ingest_cdr
    ingest_cdr-accounts d read = rw read (store_records-accounts (first ∷ others) errors d)

    -- Ingesting the same file once more, with nothing in between, inserts no record, skips all of
    -- them and leaves the table as it is; the reply says `partial`.
    pub ingest_cdr_again :
        (d e : D)
        → parse_csv libraries content ≡ (first ∷ others, errors)
        → (ingest_cdr store libraries true content d).1 ≡ e
        → ingest_cdr store libraries true content e ≡ (
          ingested (record {
            status = partial;
            records_processed = suc (length others);
            records_inserted = 0;
            duplicates_skipped = suc (length others);
            errors = errors;
          }),
          e,
        )
    unfolding ingest_cdr
    ingest_cdr_again d e read same = rw read (
        store_records_again (first ∷ others) errors d e
          (ap (λ p. (parsed store p d).1) (sym read) ∙ same))
