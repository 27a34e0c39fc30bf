-- ===== src/Ml/Retraining/Schedule.antt =====
-- When `start_scheduler` wakes up (services/ml-pipeline/retraining_orchestrator.py). A time is a
-- number of microseconds of the local clock since a midnight, as exact as `datetime.now()` is.
use vox_guard.Base.{ℕ, ◌+◌, ◌*◌, ◌-◌, ◌/◌, ◌%◌, ◌≤◌, ◌<◌, ◌≡◌, leb, if◌then◌else◌, arith}

-- `now.replace(hour=2, minute=0, second=0, microsecond=0)`
abbrev pub at_two : ℕ → ℕ
at_two now = now / 86400000000 * 86400000000 + 7200000000

unfoldable pub next_run : ℕ → ℕ
next_run now = let next = at_two now in if leb next now then next + 86400000000 else next

unfoldable pub wait_seconds : ℕ → ℕ
unfolding next_run
wait_seconds now = next_run now - now

-- The scheduler waits for more than no time and at most a day, until a time that is exactly two hours
-- after a midnight, and no such time lies between.
pub wait_seconds-next_run :
    (now : ℕ)
    → (0 < wait_seconds now)
      × (wait_seconds now ≤ 86400000000)
      × ((now + wait_seconds now) % 86400000000 ≡ 7200000000)
      × ((t : ℕ) → now < t → t % 86400000000 ≡ 7200000000 → now + wait_seconds now ≤ t)
unfolding wait_seconds next_run
wait_seconds-next_run now = (ground arith, ground arith, ground arith, λ t later two. ground arith)
