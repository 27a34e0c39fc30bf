-- ===== src/Cdr/Metrics/Counters.antt =====
-- `CDRMetricsCalculator` (services/sip-processor/app/cdr/metrics.py). Redis is a parameter; the
-- results are in units of 1/10000, also the percentage.
use vox_guard.Base.{
  ℕ, zero, suc, ◌+◌, ◌*◌, ◌/◌, String, Option, none, some, List, [], ◌∷◌, min, length,
}
use vox_guard.Inference.Features.{CdrMetrics}

-- The keys `cdr:<number>:<name>` and `window:<number>`.
pub data Key : Type 0 where
  attempts answered total_window durations window : String → Key

-- The commands, each at a time; the last argument is the state of the server. `ltrim` keeps that
-- many of the last elements.
pub record Redis (R : Type 0) : Type 0 where
  pub incr : Key → ℕ → R → R
  pub expire : Key → ℕ → ℕ → R → R
  pub sadd : Key → String → ℕ → R → R
  pub rpush : Key → ℕ → ℕ → R → R
  pub ltrim : Key → ℕ → ℕ → R → R
  pub get : Key → ℕ → R → Option ℕ
  pub scard : Key → ℕ → R → ℕ
  pub lrange : Key → ℕ → R → List ℕ
  pub delete : List Key → ℕ → R → R

abbrev pub value_or : ℕ → Option ℕ → ℕ
value_or default none = default
value_or default (some v) = v

-- `x / n`, where the code has made sure that `n` is not 0.
abbrev pub quotient : ℕ → ℕ → ℕ
quotient x zero = 0
quotient x (suc n) = x / suc n

abbrev pub sum : List ℕ → ℕ
sum [] = 0
sum (d ∷ ds) = d + sum ds

pub record AllMetrics : Type 0 where
  pub b_number : String
  pub metrics : CdrMetrics
  pub total_attempts : ℕ
  pub answered_calls : ℕ

module _ {R : Type 0} (redis : Redis R) (window_seconds : ℕ) where
  -- The six commands of the pipeline, the first one innermost.
  unfoldable pub record_attempt : String → String → ℕ → R → R
  record_attempt b_number a_number now r =
      let r = redis.incr (attempts b_number) now r in
      let r = redis.expire (attempts b_number) window_seconds now r in
      let r = redis.sadd (window b_number) a_number now r in
      let r = redis.expire (window b_number) 5 now r in
      let r = redis.incr (total_window b_number) now r in
      redis.expire (total_window b_number) window_seconds now r

  unfoldable pub record_answer : String → ℕ → R → R
  record_answer b_number now r =
      redis.expire (answered b_number) window_seconds now (redis.incr (answered b_number) now r)

  unfoldable pub record_duration : String → ℕ → ℕ → R → R
  record_duration b_number duration now r =
      let r = redis.rpush (durations b_number) duration now r in
      let r = redis.expire (durations b_number) window_seconds now r in
      redis.ltrim (durations b_number) 1000 now r

  abbrev pub count_at : Key → ℕ → R → ℕ
  count_at key now r = value_or 0 (redis.get key now r)

  unfoldable pub calculate_asr : String → ℕ → R → ℕ
  calculate_asr b_number now r =
      quotient (count_at (answered b_number) now r * 1000000) (count_at (attempts b_number) now r)

  unfoldable pub calculate_aloc : String → ℕ → R → ℕ
  calculate_aloc b_number now r =
      let ds = redis.lrange (durations b_number) now r in quotient (sum ds) (length ds)

  unfoldable pub calculate_overlap_ratio : String → ℕ → R → ℕ
  calculate_overlap_ratio b_number now r =
      let total = value_or 1 (redis.get (total_window b_number) now r) in
      min (quotient (redis.scard (window b_number) now r * 10000) total) 10000

  unfoldable pub get_concurrent_callers : String → ℕ → R → ℕ
  get_concurrent_callers b_number now r = redis.scard (window b_number) now r

  -- All at one time.
  unfoldable pub get_all_metrics : String → ℕ → R → AllMetrics
  get_all_metrics b_number now r = record {
    b_number = b_number;
    metrics = record {
      asr = calculate_asr b_number now r;
      aloc = calculate_aloc b_number now r;
      overlap_ratio = calculate_overlap_ratio b_number now r;
      concurrent_callers = redis.scard (window b_number) now r;
    };
    total_attempts = count_at (attempts b_number) now r;
    answered_calls = count_at (answered b_number) now r;
  }

  unfoldable pub reset_metrics : String → ℕ → R → R
  reset_metrics b_number now r =
      redis.delete
        (attempts b_number
          ∷ answered b_number
          ∷ durations b_number
          ∷ total_window b_number
          ∷ window b_number
          ∷ [])
        now r
