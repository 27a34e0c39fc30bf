-- ===== src/Ml/Splitter/Rollout.antt =====
-- The gradual rollout (services/ml-pipeline/ab_testing/traffic_splitter.py, `GradualRollout`).
use vox_guard.Base.{ℕ, zero, suc, ◌+◌, ◌*◌, ◌≤◌, ◌<◌, ◌≡◌, true, arith, min}
use vox_guard.Ml.Splitter.Ops.{GradualRollout, increase_traffic, increase_times, is_complete}

-- From a start that does not exceed the maximum, the share after `n` increases is the start and
-- `n` steps, cut off at the maximum; the step and the maximum stay.
pub increase_times-current :
    (n : ℕ) (g : GradualRollout)
    → g.current_traffic ≤ g.max_traffic
    → ((increase_times n g).current_traffic
        ≡ min (g.current_traffic + n * g.step_percentage) g.max_traffic)
      × ((increase_times n g).max_traffic ≡ g.max_traffic)
unfolding increase_times
increase_times-current zero g h = ground arith
increase_times-current (suc n) g h = grind (arith, increase_times-current n (increase_traffic g).1)

steps_cover : (n k : ℕ) → 0 < k → n ≤ n * k
steps_cover n k h = grind arith

-- With a positive step the rollout is complete after as many increases as the start is short of
-- the maximum, and stays complete.
pub increase_times-is_complete :
    (n : ℕ) (g : GradualRollout)
    → g.current_traffic ≤ g.max_traffic
    → 0 < g.step_percentage
    → g.max_traffic ≤ g.current_traffic + n
    → is_complete (increase_times n g) ≡ true
unfolding is_complete
increase_times-is_complete n g h pos enough =
    ground (arith, increase_times-current n g h, steps_cover n g.step_percentage pos)
