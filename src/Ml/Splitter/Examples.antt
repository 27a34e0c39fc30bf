-- ===== src/Ml/Splitter/Examples.antt =====
-- A splitter at 90% and a rollout from 10%.
use vox_guard.Base.{ℕ, ◌≡◌, refl, String, [], ◌∷◌, str_eq, if◌then◌else◌}
use vox_guard.Ml.Splitter.Ops.{TrafficSplitter, GradualRollout, model_a, model_b, assign_all}

abbrev splitter : TrafficSplitter
splitter = record {
  config = record { model_a_traffic = 9000; model_b_traffic = 1000 };
  model_a_count = 3;
  model_b_count = 0;
}

abbrev hash : String → ℕ
hash s = if str_eq s "x" then 1095 else 217

abbrev rollout : GradualRollout
rollout = record { current_traffic = 1000; step_percentage = 1000; max_traffic = 2500 }

answers : (assign_all hash ("x" ∷ "y" ∷ []) splitter).0 ≡ model_b ∷ model_a ∷ []
unfolding assign_all
answers = refl
