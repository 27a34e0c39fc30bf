-- ===== src/Ml/Collector/Balance.antt =====
-- What balancing does to the two classes (services/ml-pipeline/data_collector.py).
use vox_guard.Base.{
  ℕ, zero, suc, ◌+◌, ◌<◌, ◌≤◌, ◌≡◌, refl, Bool, true, none, some, List, [], ◌∷◌, ◌++◌, length, ltb,
  count_if, max, arith, ap, ◌∙◌, Bool-cases, inl, inr,
}
use vox_guard.Ml.Collector.Frames.{rows_where}
use vox_guard.Ml.Collector.Samples.{Sample}
use vox_guard.Ml.Collector.Ops.{
  DataCollector, Sampling, target_count, oversampled, balance_dataset, is_fraud_row, is_clean_row,
  shuffled,
}

-- What pandas documents: with replacement, `sample` draws `n` rows of a frame that has some, and
-- raises for a frame that has none; a shuffled frame has the same rows.
pub record Works (sampling : Sampling) : Type 0 where
  pub draws :
      (n : ℕ) (r : Sample) (rows : List Sample)
      → (out : List Sample) × (sampling.draw n (r ∷ rows) ≡ some out)
        × (length out ≡ n)
        × ((p : Sample → Bool)
            → count_if p (r ∷ rows) ≡ length (r ∷ rows)
            → count_if p out ≡ length out)
  pub raises : (n : ℕ) → sampling.draw (suc n) [] ≡ none
  pub permutes :
      (p : Sample → Bool) (rows : List Sample)
      → count_if p (sampling.shuffle rows) ≡ count_if p rows

length-rows_where :
    (p : Sample → Bool) (rows : List Sample) → length (rows_where p rows) ≡ count_if p rows
unfolding rows_where
length-rows_where p [] = refl
length-rows_where p (r ∷ rows) = ground (arith, length-rows_where p rows)

count_if-rows_where :
    (p : Sample → Bool) (rows : List Sample)
    → count_if p (rows_where p rows) ≡ length (rows_where p rows)
unfolding rows_where
count_if-rows_where p [] = refl
count_if-rows_where p (r ∷ rows) = ground (arith, count_if-rows_where p rows)

count_if-append :
    (p : Sample → Bool) (xs ys : List Sample)
    → count_if p (xs ++ ys) ≡ count_if p xs + count_if p ys
count_if-append p [] ys = omega arith
count_if-append p (x ∷ xs) ys = omega (arith, count_if-append p xs ys)

lt→ltb : (a b : ℕ) → a < b → ltb a b ≡ true
lt→ltb a b h = ground arith

-- No row is in both classes.
fraud_only :
    (rows : List Sample) → count_if is_fraud_row rows ≡ length rows → count_if is_clean_row rows ≡ 0
fraud_only [] h = refl
fraud_only (r ∷ rows) h = ground (arith, fraud_only rows, all_le rows)
  where
    all_le : (rows : List Sample) → count_if is_fraud_row rows ≤ length rows
    all_le [] = omega arith
    all_le (r ∷ rows) = ground (arith, all_le rows)

clean_only :
    (rows : List Sample) → count_if is_clean_row rows ≡ length rows → count_if is_fraud_row rows ≡ 0
clean_only [] h = refl
clean_only (r ∷ rows) h = ground (arith, clean_only rows, all_le rows)
  where
    all_le : (rows : List Sample) → count_if is_clean_row rows ≤ length rows
    all_le [] = omega arith
    all_le (r ∷ rows) = ground (arith, all_le rows)

module _ (sampling : Sampling) (works : Works sampling) where
  oversampled_lem :
      (fraud clean : List Sample)
      → 0 < length fraud
      → count_if is_fraud_row fraud ≡ length fraud
      → (out : List Sample) × (oversampled sampling fraud clean ≡ some out)
        × (count_if is_fraud_row out ≡ length out)
        × (length out ≡ max (length fraud) (target_count (length clean)))
  unfolding oversampled
  oversampled_lem [] clean some_fraud all_fraud = absurd (ground arith)
  oversampled_lem (r ∷ rs) clean some_fraud all_fraud =
      elim (Bool-cases (ltb (length (r ∷ rs)) (target_count (length clean)))) [
        | inl few ↦
            let (out, ran, size, drawn) = works.draws (target_count (length clean)) r rs in
            rw few (out, ran, drawn is_fraud_row all_fraud, ground arith)
        | inr enough ↦ rw enough (r ∷ rs, refl, all_fraud, ground arith)
      ]

  -- If pandas samples as documented and there is a fraud row, balancing succeeds: it keeps the
  -- number of rows without fraud, and raises the number of fraud rows to three sevenths
  -- of that, rounded down, if it is below.
  pub balance_dataset_counts :
      (df : List Sample) (c : DataCollector)
      → 0 < count_if is_fraud_row df
      → (out : List Sample) × ((balance_dataset sampling df c).0 ≡ some out)
        × (count_if is_clean_row out ≡ count_if is_clean_row df)
        × (count_if is_fraud_row out
            ≡ max (count_if is_fraud_row df) (target_count (count_if is_clean_row df)))
  unfolding balance_dataset
  balance_dataset_counts df c some_fraud =
      let fraud = rows_where is_fraud_row df in
      let clean = rows_where is_clean_row df in
      let size = length-rows_where is_fraud_row df in
      let size' = length-rows_where is_clean_row df in
      let all_clean = count_if-rows_where is_clean_row df in
      let (more, ran, all_fraud, enough) =
        oversampled_lem fraud clean (omega (arith, size, some_fraud))
          (count_if-rows_where is_fraud_row df) in
      (
        sampling.shuffle (clean ++ more),
        ap (shuffled sampling clean) ran,
        works.permutes is_clean_row (clean ++ more)
            ∙ (count_if-append is_clean_row clean more
                ∙ omega (arith, fraud_only more all_fraud, all_clean, size')),
        works.permutes is_fraud_row (clean ++ more)
            ∙ (count_if-append is_fraud_row clean more
                ∙ omega (
                  arith,
                  clean_only clean all_clean,
                  all_fraud,
                  enough,
                  size,
                  ap target_count size',
                )),
      )

  draw_none : (n : ℕ) → 0 < n → sampling.draw n [] ≡ none
  draw_none zero positive = absurd (ground arith)
  draw_none (suc n) positive = works.raises n

  oversampled-raises :
      (fraud clean : List Sample)
      → length fraud ≡ 0
      → 0 < target_count (length clean)
      → oversampled sampling fraud clean ≡ none
  unfolding oversampled
  oversampled-raises [] clean empty wanted =
      rw (lt→ltb 0 (target_count (length clean)) wanted)
        (draw_none (target_count (length clean)) wanted)
  oversampled-raises (r ∷ rs) clean empty wanted = absurd (ground arith)

  -- If pandas samples as documented, a frame without fraud rows for which the target is not zero
  -- makes the balancing raise, after it has set the two counts.
  pub balance_dataset-no_fraud :
      (df : List Sample) (c : DataCollector)
      → count_if is_fraud_row df ≡ 0
      → 0 < target_count (count_if is_clean_row df)
      → balance_dataset sampling df c
        ≡ (none, record c { fraud_records = 0; non_fraud_records = count_if is_clean_row df })
  unfolding balance_dataset
  balance_dataset-no_fraud df c no_fraud wanted =
      let size = length-rows_where is_fraud_row df in
      let size' = length-rows_where is_clean_row df in
      let raised =
        oversampled-raises (rows_where is_fraud_row df) (rows_where is_clean_row df)
          (size ∙ no_fraud) (omega (arith, ap target_count size', wanted)) in
      rw (raised, size, size', no_fraud) refl
