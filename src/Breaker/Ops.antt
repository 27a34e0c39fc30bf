-- ===== src/Breaker/Ops.antt =====
-- The breaker's transitions and its bookkeeping (services/voice-switch/circuit_breaker.py).
-- None of them is suspended between its first and its last statement: what they await is a lock
-- that no other task holds, or a coroutine that does not wait itself.
use vox_guard.Base.{ℕ, ◌+◌, Option, none, some, leb, if◌then◌else◌}
use vox_guard.Base.Int.{pos}
use vox_guard.Breaker.State.{
  CircuitState, closed, opened, half_open, same_state, CircuitBreakerConfig, Transitions,
  CircuitBreaker, no_metrics,
}

-- `state_transitions[key] += 1`, if there is such a key.
unfoldable pub count_transition : CircuitState → CircuitState → Transitions → Transitions
count_transition closed opened t = record t { closed_to_open = t.closed_to_open + 1 }
count_transition opened half_open t = record t { open_to_half_open = t.open_to_half_open + 1 }
count_transition half_open closed t = record t { half_open_to_closed = t.half_open_to_closed + 1 }
count_transition half_open opened t = record t { half_open_to_open = t.half_open_to_open + 1 }
count_transition _ _ t = t

unfoldable pub reset_counters : CircuitState → CircuitBreaker → CircuitBreaker
reset_counters closed b = record b { failure_count = 0; success_count = 0; half_open_calls = pos 0 }
reset_counters half_open b = record b { half_open_calls = pos 0; success_count = 0 }
reset_counters opened b = b

unfoldable pub transition_to : CircuitState → CircuitBreaker → CircuitBreaker
unfolding count_transition reset_counters
transition_to new b =
    if same_state b.state new
    then b
    else reset_counters new (record b {
      state = new;
      metrics = record b.metrics {
        current_state = new;
        state_transitions = count_transition b.state new b.metrics.state_transitions;
      };
    })

-- `reset`
unfoldable pub reset : CircuitBreaker → CircuitBreaker
reset b = record b {
  state = closed;
  failure_count = 0;
  success_count = 0;
  last_failure_time = none;
  half_open_calls = pos 0;
  metrics = no_metrics;
}

module _ {ℓ} {A E R : Type ℓ} (config : CircuitBreakerConfig A E R) where
  -- The branch on the state in `_on_success`.
  unfoldable pub count_success : CircuitState → CircuitBreaker → CircuitBreaker
  unfolding transition_to
  count_success half_open b =
      if leb config.success_threshold (b.success_count + 1)
      then transition_to closed (record b { success_count = b.success_count + 1 })
      else record b { success_count = b.success_count + 1 }
  count_success closed b = record b { failure_count = 0 }
  count_success opened b = b

  -- `_on_success`, with the clock at `now`.
  unfoldable pub on_success : ℕ → CircuitBreaker → CircuitBreaker
  unfolding count_success
  on_success now b = count_success b.state (record b {
    metrics = record b.metrics {
      total_requests = b.metrics.total_requests + 1;
      successful_requests = b.metrics.successful_requests + 1;
      last_success_time = some now;
    };
  })

  -- The branch on the state in `_on_failure`.
  unfoldable pub count_failure : CircuitState → CircuitBreaker → CircuitBreaker
  unfolding transition_to
  count_failure half_open b = transition_to opened b
  count_failure closed b =
      if leb config.failure_threshold (b.failure_count + 1)
      then transition_to opened (record b { failure_count = b.failure_count + 1 })
      else record b { failure_count = b.failure_count + 1 }
  count_failure opened b = b

  -- `_on_failure`, which reads the clock for the metrics at `now` and for itself at `later`.
  unfoldable pub on_failure : ℕ → ℕ → CircuitBreaker → CircuitBreaker
  unfolding count_failure
  on_failure now later b = count_failure b.state (record b {
    metrics = record b.metrics {
      total_requests = b.metrics.total_requests + 1;
      failed_requests = b.metrics.failed_requests + 1;
      last_failure_time = some now;
    };
    last_failure_time = some later;
  })

  unfoldable pub try_recovery : CircuitState → Option ℕ → ℕ → CircuitBreaker → CircuitBreaker
  unfolding transition_to
  try_recovery opened (some failed_at) now b =
      if leb (failed_at + config.timeout) now then transition_to half_open b else b
  try_recovery _ _ _ b = b

  -- `_check_and_transition_from_open`, with the clock at `now`.
  unfoldable pub check_and_transition_from_open : ℕ → CircuitBreaker → CircuitBreaker
  unfolding try_recovery
  check_and_transition_from_open now b = try_recovery b.state b.last_failure_time now b
