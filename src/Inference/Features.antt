-- ===== src/Inference/Features.antt =====
-- `MaskingFeatures` and `FeatureExtractor` (services/sip-processor/app/inference/features.py), and
-- `CDRMetrics`, as far as they are read. Fractions are in units of 1/10000, also the percentages.
use vox_guard.Base.{ℕ, String, Bool, Option, none, some, leb, ltb, if◌then◌else◌}
use vox_guard.Base.Dict.{Dict, lookup}

pub record CdrMetrics : Type 0 where
  pub asr : ℕ
  pub aloc : ℕ
  pub overlap_ratio : ℕ
  pub concurrent_callers : ℕ

pub record MaskingFeatures : Type 0 where
  pub asr : ℕ
  pub aloc : ℕ
  pub overlap_ratio : ℕ
  pub cli_mismatch : ℕ
  pub distinct_a_count : ℕ
  pub call_rate : ℕ
  pub short_call_ratio : ℕ
  pub high_volume_flag : ℕ

-- 1.0 or 0.0
abbrev pub flag : Bool → ℕ
flag b = if b then 10000 else 0

abbrev pub high_volume_threshold : ℕ
high_volume_threshold = 10

unfoldable pub extract : CdrMetrics → Bool → ℕ → ℕ → MaskingFeatures
extract m cli_mismatch call_rate short_call_ratio = record {
  asr = m.asr;
  aloc = m.aloc;
  overlap_ratio = m.overlap_ratio;
  cli_mismatch = flag cli_mismatch;
  distinct_a_count = m.concurrent_callers;
  call_rate = call_rate;
  short_call_ratio = short_call_ratio;
  high_volume_flag = flag (leb high_volume_threshold m.concurrent_callers);
}

abbrev pub or_0 : Option ℕ → ℕ
or_0 none = 0
or_0 (some v) = v

abbrev pub get : String → Dict ℕ → ℕ
get name d = or_0 (lookup name d)

-- A Boolean in a dictionary is a number, and counts as true if it is not 0; a count is a number of
-- ones.
unfoldable pub extract_from_dict : Dict ℕ → Dict ℕ → MaskingFeatures
extract_from_dict metrics_dict sip_info = record {
  asr = get "asr" metrics_dict;
  aloc = get "aloc" metrics_dict;
  overlap_ratio = get "overlap_ratio" metrics_dict;
  cli_mismatch = flag (ltb 0 (get "cli_mismatch" sip_info));
  distinct_a_count = get "distinct_a_count" sip_info;
  call_rate = get "call_rate" sip_info;
  short_call_ratio = get "short_call_ratio" sip_info;
  high_volume_flag = flag (leb high_volume_threshold (get "distinct_a_count" sip_info));
}
