-- ===== src/Ml/Collector/Examples.antt =====
-- A frame of three rows, one of which is a fraud, and sampling by repeating the first row.
use vox_guard.Base.{
  ℕ, suc, zero, ◌≤◌, ◌≡◌, refl, Bool, true, ◌&&◌, Option, none, some, List, [], ◌∷◌, length,
  replicate, count_if, arith,
}
use vox_guard.Base.Int.{ℤ, pos}
use vox_guard.Ml.Collector.Frames.{dropna, drop_duplicates, rows_where, has_row, AreDistinct}
use vox_guard.Ml.Collector.Samples.{Sample, RawSample, complete, sample_eq}
use vox_guard.Ml.Collector.Ops.{
  new_collector, Sampling, validate_and_clean, balance_dataset, is_fraud_row, is_clean_row,
}
use vox_guard.Ml.Collector.Cleaning.{is_valid_sample, validate_and_clean_lem}
use vox_guard.Ml.Collector.Balance.{Works, balance_dataset_counts, balance_dataset-no_fraud}

abbrev repeat_first : ℕ → List Sample → Option (List Sample)
repeat_first n [] = none
repeat_first n (r ∷ rows) = some (replicate n r)

abbrev repeating : Sampling
repeating = record { draw = repeat_first; shuffle = λ rows. rows }

length-replicate : (n : ℕ) (r : Sample) → length (replicate n r) ≡ n
length-replicate zero r = refl
length-replicate (suc n) r = omega (arith, length-replicate n r)

count_if-le-length : (p : Sample → Bool) (rows : List Sample) → count_if p rows ≤ length rows
count_if-le-length p [] = omega arith
count_if-le-length p (r ∷ rows) = ground (arith, count_if-le-length p rows)

count_if-replicate :
    (p : Sample → Bool) (n : ℕ) (r : Sample) → p r ≡ true → count_if p (replicate n r) ≡ n
count_if-replicate p zero r h = refl
count_if-replicate p (suc n) r h = ground (arith, count_if-replicate p n r h)

repeating-Works : Works repeating
repeating-Works = record {
  draws = λ n r rows. (
    replicate n r,
    refl,
    length-replicate n r,
    λ p all.
        ground (arith, count_if-replicate p n r, count_if-le-length p rows, length-replicate n r),
  );
  raises = λ n. refl;
  permutes = λ p rows. refl;
}

abbrev sample : ℕ → ℕ → Sample
sample aloc fraud = record {
  asr = pos 500000;
  aloc = pos aloc;
  overlap_ratio = pos 5000;
  cli_mismatch = pos 0;
  distinct_a_count = pos 30000;
  call_rate = pos 10000;
  short_call_ratio = pos 2000;
  high_volume_flag = pos 0;
  is_fraud = pos fraud;
}

abbrev raw : ℤ → Option ℤ → RawSample
raw asr fraud = record {
  asr = some asr;
  aloc = some (pos 100000);
  overlap_ratio = some (pos 5000);
  cli_mismatch = some (pos 0);
  distinct_a_count = some (pos 30000);
  call_rate = some (pos 10000);
  short_call_ratio = some (pos 2000);
  high_volume_flag = some (pos 0);
  is_fraud = fraud;
}

-- One good row, the same again, one out of range and one without a label.
abbrev raw_rows : List RawSample
raw_rows =
    raw (pos 500000) (some (pos 0))
    ∷ raw (pos 500000) (some (pos 0))
    ∷ raw (pos 1000001) (some (pos 0))
    ∷ raw (pos 500000) none
    ∷ []

cleaned : validate_and_clean raw_rows ≡ sample 100000 0 ∷ []
unfolding validate_and_clean drop_duplicates rows_where dropna complete sample_eq
cleaned = refl

validate_and_clean_lem_example :
    AreDistinct sample_eq [] (validate_and_clean raw_rows)
    × ((x : Sample)
        → has_row sample_eq x (validate_and_clean raw_rows)
          ≡ (is_valid_sample x && has_row sample_eq x (dropna complete raw_rows)))
validate_and_clean_lem_example = validate_and_clean_lem raw_rows

abbrev clean_rows : List Sample
clean_rows = sample 1 0 ∷ sample 2 0 ∷ sample 3 0 ∷ sample 4 0 ∷ sample 5 0 ∷ []

balance_dataset_counts_example :
    (out : List Sample) × ((balance_dataset repeating (sample 9 10000 ∷ clean_rows) new_collector).0
      ≡ some out)
    × (count_if is_clean_row out ≡ 5)
    × (count_if is_fraud_row out ≡ 2)
balance_dataset_counts_example =
    balance_dataset_counts repeating repeating-Works (sample 9 10000 ∷ clean_rows) new_collector
      (omega arith)

balance_dataset-no_fraud_example :
    balance_dataset repeating clean_rows new_collector
    ≡ (none, record new_collector { fraud_records = 0; non_fraud_records = 5 })
balance_dataset-no_fraud_example =
    balance_dataset-no_fraud repeating repeating-Works clean_rows new_collector refl (omega arith)
