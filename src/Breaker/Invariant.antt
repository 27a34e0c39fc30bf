-- ===== src/Breaker/Invariant.antt =====
-- What holds of a breaker between two uninterrupted parts of its calls
-- (services/voice-switch/circuit_breaker.py).
use vox_guard.Base.{ℕ, ◌+◌, ◌<◌, ◌≡◌, String, Bool, true, false, Option, none, some, arith}
use vox_guard.Base.Int.{pos, ◌≤ℤ◌, ◌+ℤ◌, ◌-ℤ◌}
use vox_guard.Breaker.State.{
  CircuitState, closed, opened, half_open, Outcome, CircuitBreakerConfig, CircuitBreaker,
  new_breaker,
}
use vox_guard.Breaker.Ops.{reset, check_and_transition_from_open}
use vox_guard.Breaker.Call.{Readings, start, finish, admit}

abbrev pub is_set : Option ℕ → Bool
is_set none = false
is_set (some _) = true

-- 1 in the state that is asked for, and 0 in the others.
abbrev pub when_opened : CircuitState → ℕ
when_opened opened = 1
when_opened _ = 0

abbrev pub when_half_open : CircuitState → ℕ
when_half_open half_open = 1
when_half_open _ = 0

module _ {ℓ} {A E R : Type ℓ} (config : CircuitBreakerConfig A E R) where
  -- The metrics mirror the state and add up; the counters stay below their thresholds; an open
  -- circuit knows when it failed; and each state was entered once more than it was left, or as
  -- often, according to the transitions counted.
  pub record IsConsistent (b : CircuitBreaker) : Type 0 where
    pub mirrored : b.metrics.current_state ≡ b.state
    pub summed :
        b.metrics.total_requests ≡ b.metrics.successful_requests + b.metrics.failed_requests
    pub failures_below : b.state ≡ closed → b.failure_count < config.failure_threshold
    pub successes_below : b.state ≡ half_open → b.success_count < config.success_threshold
    pub failure_known : b.state ≡ opened → is_set b.last_failure_time ≡ true
    pub slots_capped : b.state ≡ half_open → b.half_open_calls ≤ℤ pos config.half_open_max_calls
    pub opened_flow :
        b.metrics.state_transitions.closed_to_open + b.metrics.state_transitions.half_open_to_open
        ≡ b.metrics.state_transitions.open_to_half_open + when_opened b.state
    pub half_open_flow :
        b.metrics.state_transitions.open_to_half_open
        ≡ b.metrics.state_transitions.half_open_to_closed
          + b.metrics.state_transitions.half_open_to_open
          + when_half_open b.state

  module _ (fails : 0 < config.failure_threshold) (succeeds : 0 < config.success_threshold) where
    pub new_breaker-IsConsistent : (name : String) → IsConsistent (new_breaker name)
    unfolding new_breaker
    new_breaker-IsConsistent name = ground arith

    pub reset-IsConsistent : (b : CircuitBreaker) → IsConsistent (reset b)
    unfolding reset
    reset-IsConsistent b = ground arith

    pub check_and_transition_from_open-IsConsistent :
        (now : ℕ) (b : CircuitBreaker)
        → IsConsistent b
        → IsConsistent (check_and_transition_from_open config now b)
    unfolding check_and_transition_from_open
    check_and_transition_from_open-IsConsistent now b h = ground arith

    admit-IsConsistent :
        (t : Readings) (args : A) (b : CircuitBreaker)
        → IsConsistent b
        → IsConsistent (admit config b.state t args b).1
    unfolding admit ◌+ℤ◌
    admit-IsConsistent t args b h = ground arith

    pub start-IsConsistent :
        (t : Readings) (args : A) (b : CircuitBreaker)
        → IsConsistent b
        → IsConsistent (start config t args b).1
    unfolding start
    start-IsConsistent t args b h =
        let c = check_and_transition_from_open config t.checked b in
        admit-IsConsistent t args c (check_and_transition_from_open-IsConsistent t.checked b h)

    pub finish-IsConsistent :
        (t : Readings) (o : Outcome E R) (b : CircuitBreaker)
        → IsConsistent b
        → IsConsistent (finish config t o b)
    unfolding finish ◌-ℤ◌
    finish-IsConsistent t o b h = ground arith
