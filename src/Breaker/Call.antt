-- ===== src/Breaker/Call.antt =====
-- `CircuitBreaker.call` (services/voice-switch/circuit_breaker.py). It is suspended only while it
-- awaits the protected function or the fallback, so it is two uninterrupted parts: `start`, up to
-- that await, and `finish`, after it. `call` runs the two with nothing in between.
use vox_guard.Base.{ℕ, ◌+◌, ◌-◌, Option, none, some, if◌then◌else◌, ◌==◌, List, [], ◌∷◌}
use vox_guard.Base.Int.{pos, ◌+ℤ◌, ◌-ℤ◌, leb_ℤ}
use vox_guard.Breaker.State.{
  CircuitState, closed, opened, half_open, Outcome, returned, raised, CircuitBreakerConfig,
  CircuitBreaker,
}
use vox_guard.Breaker.Ops.{on_success, on_failure, check_and_transition_from_open}

-- The clock where a call reads it: in the check, for `retry_after`, and at its end, where
-- `_on_failure` reads it twice.
pub record Readings : Type 0 where
  pub checked : ℕ
  pub refused : ℕ
  pub ended : ℕ
  pub ended_later : ℕ

-- What `call` returns or raises; `open_error` is `CircuitBreakerOpenError`, with `retry_after`.
pub data CallResult {ℓ} (E R : Type ℓ) : Type ℓ where
  outcome : Outcome E R → CallResult E R
  open_error : ℕ → CallResult E R

-- How the first part ends: with the function to be run, or with an answer in its place.
pub data Admission {ℓ} (E R : Type ℓ) : Type ℓ where
  admitted : Admission E R
  refused : CallResult E R → Admission E R

-- `max(0, timeout - (now - last))`; a reading of 0 counts as none, for Python's `if` on a number.
unfoldable pub retry_after : ℕ → Option ℕ → ℕ → ℕ
retry_after timeout none now = 0
retry_after timeout (some failed_at) now = if failed_at == 0 then 0 else (timeout + failed_at) - now

unfoldable pub count_rejected : CircuitBreaker → CircuitBreaker
count_rejected b = record b {
  metrics = record b.metrics { rejected_requests = b.metrics.rejected_requests + 1 };
}

-- The `finally` clause.
unfoldable pub release : CircuitState → CircuitBreaker → CircuitBreaker
release half_open b = record b { half_open_calls = b.half_open_calls -ℤ pos 1 }
release _ b = b

module _ {ℓ} {A E R : Type ℓ} (config : CircuitBreakerConfig A E R) where
  unfoldable pub answer_open : Option (A → Outcome E R) → A → Option ℕ → ℕ → CallResult E R
  unfolding retry_after
  answer_open (some fallback) args failed_at now = outcome (fallback args)
  answer_open none args failed_at now = open_error (retry_after config.timeout failed_at now)

  -- After the check: refuse, admit, or admit on trial.
  unfoldable pub admit :
      CircuitState → Readings → A → CircuitBreaker → Admission E R × CircuitBreaker
  unfolding answer_open count_rejected
  admit closed t args b = (admitted, b)
  admit opened t args b = (
    refused (answer_open config.fallback_function args b.last_failure_time t.refused),
    count_rejected b,
  )
  admit half_open t args b =
      if leb_ℤ (pos config.half_open_max_calls) b.half_open_calls
      then (refused (open_error 0), count_rejected b)
      else (admitted, record b { half_open_calls = b.half_open_calls +ℤ pos 1 })

  -- `call` up to the await of the function.
  unfoldable pub start : Readings → A → CircuitBreaker → Admission E R × CircuitBreaker
  unfolding admit check_and_transition_from_open
  start t args b =
      let c = check_and_transition_from_open config t.checked b in admit c.state t args c

  -- The `try` statement without its `finally`.
  unfoldable pub settle : Readings → Outcome E R → CircuitBreaker → CircuitBreaker
  unfolding on_success on_failure
  settle t (returned r) b = on_success config t.ended b
  settle t (raised e) b =
      if config.expected_exception e then on_failure config t.ended t.ended_later b else b

  -- `call` from the moment the function has come back.
  unfoldable pub finish : Readings → Outcome E R → CircuitBreaker → CircuitBreaker
  unfolding settle release
  finish t o b = let c = settle t o b in release c.state c

  unfoldable pub run_admitted :
      Readings → Outcome E R → Admission E R × CircuitBreaker → CallResult E R × CircuitBreaker
  unfolding finish
  run_admitted t o (admitted, b) = (outcome o, finish t o b)
  run_admitted t o (refused answer, b) = (answer, b)

  -- A call during which no other task uses the breaker.
  unfoldable pub call :
      Readings → (A → Outcome E R) → A → CircuitBreaker → CallResult E R × CircuitBreaker
  unfolding start run_admitted
  call t func args b = run_admitted t (func args) (start t args b)

  -- Calls one after the other, each with its readings of the clock and its arguments.
  unfoldable pub call_all :
      (A → Outcome E R) → List (Readings × A) → CircuitBreaker → CircuitBreaker
  unfolding call
  call_all func [] b = b
  call_all func (c ∷ cs) b = call_all func cs (call c.0 func c.1 b).1
