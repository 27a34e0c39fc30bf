-- ===== src/Ml/Splitter/Ops.antt =====
-- `TrafficSplitter` and `GradualRollout`
-- (services/ml-pipeline/ab_testing/traffic_splitter.py). Fractions of the traffic, which are floats
-- there, are in units of 1/10000; Python's rounding of them is not modelled.
use vox_guard.Base.{
  ℕ, zero, suc, ◌+◌, ◌*◌, ◌/◌, ◌%◌, min, String, Bool, Option, none, some, List, [], ◌∷◌, ◌&&◌, ltb,
  leb, if◌then◌else◌,
}
use vox_guard.Base.Int.{ℤ, sub_ℕ}

-- The fraction 1.0.
abbrev pub one : ℕ
one = 10000

pub record TrafficConfig : Type 0 where
  pub model_a_traffic : ℕ
  pub model_b_traffic : ℕ

-- `__post_init__`: none is the `ValueError`.
unfoldable pub make_config : ℕ → ℕ → Option TrafficConfig
make_config a b =
    if leb 9900 (a + b) && leb (a + b) 10100
    then some (record { model_a_traffic = a; model_b_traffic = b })
    else none

pub record TrafficSplitter : Type 0 where
  pub config : TrafficConfig
  pub model_a_count : ℕ
  pub model_b_count : ℕ

abbrev pub start_counting : Option TrafficConfig → Option TrafficSplitter
start_counting none = none
start_counting (some c) = some (record { config = c; model_a_count = 0; model_b_count = 0 })

unfoldable pub new_splitter : ℕ → ℕ → Option TrafficSplitter
unfolding make_config
new_splitter a b = start_counting (make_config a b)

-- `draw` is what `random.random()` returns.
unfoldable pub should_use_model_b : ℕ → TrafficSplitter → Bool × TrafficSplitter
should_use_model_b draw s =
    let use_b = ltb draw s.config.model_b_traffic in
    if use_b
    then (use_b, record s { model_b_count = s.model_b_count + 1 })
    else (use_b, record s { model_a_count = s.model_a_count + 1 })

pub data Assignment : Type 0 where
  model_a model_b : Assignment

-- `hash` is Python's; its value counts modulo 100 alone.
unfoldable pub get_model_assignment :
    (String → ℕ) → String → TrafficSplitter → Assignment × TrafficSplitter
get_model_assignment hash request_id s =
    if ltb (hash request_id % 100) (s.config.model_a_traffic / 100)
    then (model_a, record s { model_a_count = s.model_a_count + 1 })
    else (model_b, record s { model_b_count = s.model_b_count + 1 })

abbrev pub with_config : Option TrafficConfig → TrafficSplitter → Option TrafficSplitter
with_config none s = none
with_config (some c) s = some (record s { config = c })

-- None is the `ValueError`, which leaves the splitter as it was.
unfoldable pub update_traffic_split : ℕ → ℕ → TrafficSplitter → Option TrafficSplitter
unfolding make_config
update_traffic_split a b s = with_config (make_config a b) s

-- The percentages are quotients of a count, times 100, and the total.
pub record TrafficStats : Type 0 where
  pub model_a_count : ℕ
  pub model_b_count : ℕ
  pub model_a_percentage : ℕ × ℕ
  pub model_b_percentage : ℕ × ℕ
  pub total_requests : ℕ

abbrev pub stats_of : ℕ → TrafficSplitter → TrafficStats
stats_of zero s = record {
  model_a_count = 0;
  model_b_count = 0;
  model_a_percentage = (0, 1);
  model_b_percentage = (0, 1);
  total_requests = 0;
}
stats_of (suc n) s = record {
  model_a_count = s.model_a_count;
  model_b_count = s.model_b_count;
  model_a_percentage = (s.model_a_count * 100, suc n);
  model_b_percentage = (s.model_b_count * 100, suc n);
  total_requests = suc n;
}

unfoldable pub get_traffic_stats : TrafficSplitter → TrafficStats
get_traffic_stats s = stats_of (s.model_a_count + s.model_b_count) s

unfoldable pub reset_counters : TrafficSplitter → TrafficSplitter
reset_counters s = record s { model_a_count = 0; model_b_count = 0 }

-- Requests one after the other.
unfoldable pub assign_all :
    (String → ℕ) → List String → TrafficSplitter → List Assignment × TrafficSplitter
unfolding get_model_assignment
assign_all hash [] s = ([], s)
assign_all hash (request ∷ requests) s =
    let (a, t) = get_model_assignment hash request s in
    let (rest, u) = assign_all hash requests t in (a ∷ rest, u)

pub record GradualRollout : Type 0 where
  pub current_traffic : ℕ
  pub step_percentage : ℕ
  pub max_traffic : ℕ

unfoldable pub increase_traffic : GradualRollout → ℕ × GradualRollout
increase_traffic g =
    let next = min (g.current_traffic + g.step_percentage) g.max_traffic in
    (next, record g { current_traffic = next })

unfoldable pub is_complete : GradualRollout → Bool
is_complete g = leb g.max_traffic g.current_traffic

unfoldable pub get_current_split : GradualRollout → ℤ × ℕ
get_current_split g = (sub_ℕ one g.current_traffic, g.current_traffic)

-- `increase_traffic` a number of times.
unfoldable pub increase_times : ℕ → GradualRollout → GradualRollout
unfolding increase_traffic
increase_times zero g = g
increase_times (suc n) g = increase_times n (increase_traffic g).1
