-- ===== src/Ml/Collector/Samples.antt =====
-- The rows of `DataCollector` (services/ml-pipeline/data_collector.py). A number is an integer, in
-- units of 1/10000.
use vox_guard.Base.{ℕ, ◌≡◌, Bool, true, false, ◌&&◌, ◌||◌, Option, some, ◌==◌, leb, arith, ap}
use vox_guard.Base.Int.{ℤ, pos, negsuc}
use vox_guard.Base.Options.{◌>>=◌}

pub record Features (A : Type 0) : Type 0 where
  pub asr : A
  pub aloc : A
  pub overlap_ratio : A
  pub cli_mismatch : A
  pub distinct_a_count : A
  pub call_rate : A
  pub short_call_ratio : A
  pub high_volume_flag : A
  pub is_fraud : A

-- A row with missing values, and one without.
abbrev pub RawSample : Type 0
RawSample = Features (Option ℤ)

abbrev pub Sample : Type 0
Sample = Features ℤ

unfoldable pub complete : RawSample → Option Sample
complete r = do
  asr ← r.asr
  aloc ← r.aloc
  overlap_ratio ← r.overlap_ratio
  cli_mismatch ← r.cli_mismatch
  distinct_a_count ← r.distinct_a_count
  call_rate ← r.call_rate
  short_call_ratio ← r.short_call_ratio
  high_volume_flag ← r.high_volume_flag
  is_fraud ← r.is_fraud
  some (record {
    asr = asr;
    aloc = aloc;
    overlap_ratio = overlap_ratio;
    cli_mismatch = cli_mismatch;
    distinct_a_count = distinct_a_count;
    call_rate = call_rate;
    short_call_ratio = short_call_ratio;
    high_volume_flag = high_volume_flag;
    is_fraud = is_fraud;
  })

abbrev pub eq_ℤ : ℤ → ℤ → Bool
eq_ℤ (pos m) (pos n) = m == n
eq_ℤ (negsuc m) (negsuc n) = m == n
eq_ℤ (pos m) (negsuc n) = false
eq_ℤ (negsuc m) (pos n) = false

-- All columns are the same.
unfoldable pub sample_eq : Sample → Sample → Bool
sample_eq a b =
    eq_ℤ a.asr b.asr
    && eq_ℤ a.aloc b.aloc
    && eq_ℤ a.overlap_ratio b.overlap_ratio
    && eq_ℤ a.cli_mismatch b.cli_mismatch
    && eq_ℤ a.distinct_a_count b.distinct_a_count
    && eq_ℤ a.call_rate b.call_rate
    && eq_ℤ a.short_call_ratio b.short_call_ratio
    && eq_ℤ a.high_volume_flag b.high_volume_flag
    && eq_ℤ a.is_fraud b.is_fraud

-- `column.between(0, high)`, and `column.isin([0, 1])`.
abbrev pub is_between_0 : ℕ → ℤ → Bool
is_between_0 high (pos n) = leb n high
is_between_0 high (negsuc n) = false

abbrev pub is_natural : ℤ → Bool
is_natural (pos n) = true
is_natural (negsuc n) = false

abbrev pub is_0_or_1 : ℤ → Bool
is_0_or_1 v = eq_ℤ v (pos 0) || eq_ℤ v (pos 10000)

eq_of_eq_ℤ : (a b : ℤ) → eq_ℤ a b ≡ true → a ≡ b
eq_of_eq_ℤ (pos m) (pos n) h = ap pos (ground arith)
eq_of_eq_ℤ (negsuc m) (negsuc n) h = ap negsuc (ground arith)
eq_of_eq_ℤ (pos m) (negsuc n) h = absurd (ground arith)
eq_of_eq_ℤ (negsuc m) (pos n) h = absurd (ground arith)

pub eq_of_sample_eq : (a b : Sample) → sample_eq a b ≡ true → a ≡ b
unfolding sample_eq
eq_of_sample_eq a b h = ground (
  arith,
  eq_of_eq_ℤ a.asr b.asr,
  eq_of_eq_ℤ a.aloc b.aloc,
  eq_of_eq_ℤ a.overlap_ratio b.overlap_ratio,
  eq_of_eq_ℤ a.cli_mismatch b.cli_mismatch,
  eq_of_eq_ℤ a.distinct_a_count b.distinct_a_count,
  eq_of_eq_ℤ a.call_rate b.call_rate,
  eq_of_eq_ℤ a.short_call_ratio b.short_call_ratio,
  eq_of_eq_ℤ a.high_volume_flag b.high_volume_flag,
  eq_of_eq_ℤ a.is_fraud b.is_fraud,
)
