-- ===== src/Ml/Splitter/Counts.antt =====
-- Where requests go, and what is counted (services/ml-pipeline/ab_testing/traffic_splitter.py).
use vox_guard.Base.{
  ℕ, ◌+◌, ◌/◌, ◌%◌, ◌≤◌, ◌≡◌, String, Bool, true, false, List, [], ◌∷◌, arith, ltb, length,
  count_if,
}
use vox_guard.Ml.Splitter.Ops.{
  TrafficConfig, TrafficSplitter, Assignment, model_a, model_b, get_model_assignment, assign_all,
}

abbrev pub goes_to_a : (String → ℕ) → TrafficConfig → String → Bool
goes_to_a hash c request = ltb (hash request % 100) (c.model_a_traffic / 100)

abbrev pub is_a : Assignment → Bool
is_a model_a = true
is_a model_b = false

-- Every request is counted once, for the model that its hash selects: after any requests the two
-- counts have grown by the number of requests below the threshold and by that of the others, and
-- by the numbers of requests that the answers name the models for; the split is unchanged.
pub assign_all-counts :
    (hash : String → ℕ) (requests : List String) (s : TrafficSplitter)
    → let (answers, t) = assign_all hash requests s in
      (t.model_a_count ≡ s.model_a_count + count_if (goes_to_a hash s.config) requests)
      × (t.model_a_count + t.model_b_count ≡ s.model_a_count + s.model_b_count + length requests)
      × (count_if is_a answers ≡ count_if (goes_to_a hash s.config) requests)
      × (length answers ≡ length requests)
      × (t.config ≡ s.config)
unfolding assign_all
assign_all-counts hash [] s = ground arith
assign_all-counts hash (r ∷ rs) s =
    ground (arith, assign_all-counts hash rs (get_model_assignment hash r s).1)

-- When the share of model A grows, no request moves from A to B.
pub get_model_assignment_sticky :
    (hash : String → ℕ) (request : String) (s t : TrafficSplitter)
    → s.config.model_a_traffic ≤ t.config.model_a_traffic
    → (get_model_assignment hash request s).0 ≡ model_a
    → (get_model_assignment hash request t).0 ≡ model_a
unfolding get_model_assignment
get_model_assignment_sticky hash request s t h e = ground arith
