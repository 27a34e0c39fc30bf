-- ===== src/Ml/Collector/Ops.antt =====
-- `DataCollector` (services/ml-pipeline/data_collector.py). The rows that the two databases give, as
-- merged by pandas, the sampling and the shuffling are parameters.
use vox_guard.Base.{
  ℕ, ◌*◌, ◌/◌, Bool, true, false, Option, none, some, List, ◌++◌, map, length, ltb, if◌then◌else◌,
}
use vox_guard.Base.Int.{ℤ, pos, negsuc}
use vox_guard.Ml.Collector.Frames.{rows_where, dropna, drop_duplicates}
use vox_guard.Ml.Collector.Samples.{
  RawSample, Sample, complete, sample_eq, is_between_0, is_natural, is_0_or_1, eq_ℤ,
}

-- `connected` says whether the two connections are there.
pub record DataCollector : Type 0 where
  pub connected : Bool
  pub total_records_collected : ℕ
  pub fraud_records : ℕ
  pub non_fraud_records : ℕ

abbrev pub new_collector : DataCollector
new_collector = record {
  connected = false;
  total_records_collected = 0;
  fraud_records = 0;
  non_fraud_records = 0;
}

unfoldable pub connect : DataCollector → DataCollector
connect c = record c { connected = true }

unfoldable pub close : DataCollector → DataCollector
close c = record c { connected = false }

-- A row of the merged tables, with the columns that are used.
pub record Merged : Type 0 where
  pub asr : Option ℤ
  pub aloc : Option ℤ
  pub overlap_ratio : Option ℤ
  pub distinct_a_count : Option ℤ
  pub call_rate : Option ℤ
  pub short_call_ratio : Option ℤ
  pub is_fraud : Option ℤ

-- `distinct_a_count > 10`, which is false of a missing value.
abbrev pub exceeds_10 : Option ℤ → Bool
exceeds_10 none = false
exceeds_10 (some (pos n)) = ltb 100000 n
exceeds_10 (some (negsuc n)) = false

abbrev pub engineer : ℤ → Merged → RawSample
engineer mismatch m = record {
  asr = m.asr;
  aloc = m.aloc;
  overlap_ratio = m.overlap_ratio;
  cli_mismatch = some mismatch;
  distinct_a_count = m.distinct_a_count;
  call_rate = m.call_rate;
  short_call_ratio = m.short_call_ratio;
  high_volume_flag = some (pos (if exceeds_10 m.distinct_a_count then 10000 else 0));
  is_fraud = m.is_fraud;
}

abbrev pub is_labelled : RawSample → Bool
is_labelled r = elim r.is_fraud [ none ↦ false | some v ↦ true ]

-- The mismatch of each row is drawn at random.
unfoldable pub merge_and_engineer_features : List (ℤ × Merged) → List RawSample
merge_and_engineer_features merged =
    rows_where is_labelled (map (λ (p : ℤ × Merged). engineer p.0 p.1) merged)

unfoldable pub validate_and_clean : List RawSample → List Sample
validate_and_clean rows =
    let df = dropna complete rows in
    let df = rows_where (λ (r : Sample). is_between_0 1000000 r.asr) df in
    let df = rows_where (λ (r : Sample). is_natural r.aloc) df in
    let df = rows_where (λ (r : Sample). is_between_0 10000 r.overlap_ratio) df in
    let df = rows_where (λ (r : Sample). is_0_or_1 r.cli_mismatch) df in
    let df = rows_where (λ (r : Sample). is_natural r.distinct_a_count) df in
    let df = rows_where (λ (r : Sample). is_natural r.call_rate) df in
    let df = rows_where (λ (r : Sample). is_between_0 10000 r.short_call_ratio) df in
    let df = rows_where (λ (r : Sample). is_0_or_1 r.high_volume_flag) df in
    let df = rows_where (λ (r : Sample). is_0_or_1 r.is_fraud) df in drop_duplicates sample_eq df

abbrev pub is_fraud_row : Sample → Bool
is_fraud_row r = eq_ℤ r.is_fraud (pos 10000)

abbrev pub is_clean_row : Sample → Bool
is_clean_row r = eq_ℤ r.is_fraud (pos 0)

-- `draw n rows` is `rows.sample(n, replace=True)`, where none is an exception, `shuffle` is
-- `sample(frac=1)`.
pub record Sampling : Type 0 where
  pub draw : ℕ → List Sample → Option (List Sample)
  pub shuffle : List Sample → List Sample

-- `int(n * 0.3 / 0.7)`; the floats give this number for every count up to two million.
abbrev pub target_count : ℕ → ℕ
target_count n = n * 3 / 7

abbrev pub count_classes : List Sample → DataCollector → DataCollector
count_classes df c = record c {
  fraud_records = length (rows_where is_fraud_row df);
  non_fraud_records = length (rows_where is_clean_row df);
}

module _ (sampling : Sampling) where
  -- The fraud rows after the oversampling, if there are too few of them.
  unfoldable pub oversampled : List Sample → List Sample → Option (List Sample)
  oversampled fraud clean =
      let target = target_count (length clean) in
      if ltb (length fraud) target then sampling.draw target fraud else some fraud

  abbrev pub shuffled : List Sample → Option (List Sample) → Option (List Sample)
  shuffled clean none = none
  shuffled clean (some fraud) = some (sampling.shuffle (clean ++ fraud))

  unfoldable pub balance_dataset :
      List Sample → DataCollector → Option (List Sample) × DataCollector
  unfolding oversampled
  balance_dataset df c =
      let fraud = rows_where is_fraud_row df in
      let clean = rows_where is_clean_row df in
      (shuffled clean (oversampled fraud clean), count_classes df c)

  abbrev pub collected : Option (List Sample) × DataCollector → Option (List Sample) × DataCollector
  collected (none, c) = (none, c)
  collected (some df, c) = (some df, record c { total_records_collected = length df })

  -- `merged` is what the two queries give, none an exception of theirs.
  unfoldable pub collect_training_data :
      Option (List (ℤ × Merged)) → DataCollector → Option (List Sample) × DataCollector
  unfolding merge_and_engineer_features
  collect_training_data none c = (none, c)
  collect_training_data (some merged) c =
      collected (balance_dataset (validate_and_clean (merge_and_engineer_features merged)) c)
