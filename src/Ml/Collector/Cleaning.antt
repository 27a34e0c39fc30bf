-- ===== src/Ml/Collector/Cleaning.antt =====
-- What cleaning keeps, and what balancing does to the two classes
-- (services/ml-pipeline/data_collector.py).
use vox_guard.Base.{◌≡◌, Bool, ◌&&◌, List, [], arith, ◌∙◌}
use vox_guard.Ml.Collector.Frames.{
  rows_where, dropna, drop_duplicates, has_row, AreDistinct, drop_from-AreDistinct,
  has_row-drop_from, has_row-rows_where,
}
use vox_guard.Ml.Collector.Samples.{
  Sample, RawSample, complete, sample_eq, eq_of_sample_eq, is_between_0, is_natural, is_0_or_1,
}
use vox_guard.Ml.Collector.Ops.{validate_and_clean}

-- The ranges that the comments of the class give for the columns.
abbrev pub is_valid_sample : Sample → Bool
is_valid_sample r =
    is_between_0 1000000 r.asr
    && is_natural r.aloc
    && is_between_0 10000 r.overlap_ratio
    && is_0_or_1 r.cli_mismatch
    && is_natural r.distinct_a_count
    && is_natural r.call_rate
    && is_between_0 10000 r.short_call_ratio
    && is_0_or_1 r.high_volume_flag
    && is_0_or_1 r.is_fraud

kept :
    (p : Sample → Bool) (x : Sample) (rows : List Sample)
    → has_row sample_eq x (rows_where p rows) ≡ (p x && has_row sample_eq x rows)
kept p x rows = has_row-rows_where sample_eq eq_of_sample_eq p x rows

has_row-drop_duplicates :
    (x : Sample) (rows : List Sample)
    → has_row sample_eq x (drop_duplicates sample_eq rows) ≡ has_row sample_eq x rows
unfolding drop_duplicates
has_row-drop_duplicates x rows =
    ground (arith, has_row-drop_from sample_eq eq_of_sample_eq x [] rows)

-- Cleaning keeps the rows without missing values whose columns are all in range, and no others, and
-- each of them once.
pub validate_and_clean_lem :
    (rows : List RawSample)
    → AreDistinct sample_eq [] (validate_and_clean rows)
      × ((x : Sample)
          → has_row sample_eq x (validate_and_clean rows)
            ≡ (is_valid_sample x && has_row sample_eq x (dropna complete rows)))
unfolding validate_and_clean drop_duplicates
validate_and_clean_lem rows = (
  drop_from-AreDistinct sample_eq [] _,
  λ x.
      has_row-drop_duplicates x _
      ∙ rw (kept, kept, kept, kept, kept, kept, kept, kept, kept) (ground arith),
)
