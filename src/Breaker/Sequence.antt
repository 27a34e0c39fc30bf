-- ===== src/Breaker/Sequence.antt =====
-- Calls one after the other (services/voice-switch/circuit_breaker.py): when the circuit opens,
-- what an open circuit does, and how it closes again.
use vox_guard.Base.{
  ℕ, suc, ◌+◌, ◌≤◌, ◌<◌, ◌≡◌, true, none, some, List, [], ◌∷◌, arith, leb, if◌then◌else◌, length,
  All,
}
use vox_guard.Base.Int.{pos, ◌+ℤ◌, ◌-ℤ◌, ◌≤ℤ◌}
use vox_guard.Breaker.State.{
  closed, opened, half_open, returned, raised, Outcome, CircuitBreakerConfig, CircuitBreaker,
}
use native.Mathlib.Nat.{add-zero}
use vox_guard.Breaker.Ops.{transition_to}
use vox_guard.Breaker.Call.{Readings, outcome, count_rejected, call, call_all}

add_one_more : (m n : ℕ) → m + 1 + n ≡ m + suc n
add_one_more m n = omega arith

enter_half_open :
    (b : CircuitBreaker)
    → b.state ≡ opened
    → let c = transition_to half_open b in
      (c.state ≡ half_open) × (c.half_open_calls ≡ pos 0) × (c.success_count ≡ 0)
unfolding transition_to
enter_half_open b h = ground arith

-- Closed, with every counter at zero.
pub record IsRecovered (b : CircuitBreaker) : Type 0 where
  pub is_closed : b.state ≡ closed
  pub no_failures : b.failure_count ≡ 0
  pub no_successes : b.success_count ≡ 0
  pub no_trials : b.half_open_calls ≡ pos 0

module _ {ℓ} {A E R : Type ℓ} (config : CircuitBreakerConfig A E R) where
  module _ (error : A → E) (expected : (x : A) → config.expected_exception (error x) ≡ true) where
    call-failing :
        (t : Readings) (args : A) (b : CircuitBreaker)
        → b.state ≡ closed
        → let c = (call config t (λ x. raised (error x)) args b).1 in
          (c.failure_count ≡ b.failure_count + 1)
          × (c.state
              ≡ (if leb config.failure_threshold (b.failure_count + 1) then opened else closed))
    unfolding call
    call-failing t args b h = ground (arith, expected args)

    -- A closed circuit with `k` failures in a row behind it opens at the call that makes them
    -- `failure_threshold`, and not before: after the counted failures of `cs`, as long as the sum
    -- does not pass the threshold, it is open exactly if the sum has reached it.
    pub closed_opens_at_threshold :
        (cs : List (Readings × A)) (b : CircuitBreaker)
        → b.state ≡ closed
        → b.failure_count < config.failure_threshold
        → b.failure_count + length cs ≤ config.failure_threshold
        → (call_all config (λ x. raised (error x)) cs b).state
          ≡ (if leb config.failure_threshold (b.failure_count + length cs) then opened else closed)
    unfolding call_all
    closed_opens_at_threshold [] b h below fits = ground arith
    closed_opens_at_threshold ((t, args) ∷ []) b h below fits =
        ground (arith, call-failing t args b h)
    closed_opens_at_threshold ((t, args) ∷ c ∷ cs) b h below fits = ground (
      arith,
      call-failing t args b h,
      closed_opens_at_threshold (c ∷ cs) (call config t (λ x. raised (error x)) args b).1,
    )

  call-open :
      (t : Readings) (func : A → Outcome E R) (args : A) (b : CircuitBreaker) {failed_at : ℕ}
      → config.fallback_function ≡ none
      → b.state ≡ opened
      → b.last_failure_time ≡ some failed_at
      → t.checked < failed_at + config.timeout
      → (call config t func args b).1 ≡ count_rejected b
  unfolding call
  call-open t func args b plain h f early = ground arith

  -- Without a fallback, calls that are checked before the timeout has passed leave an open circuit
  -- as it was, but for the count of rejected requests, whatever the function would have done.
  pub open_rejects_calls :
      (func : A → Outcome E R) (cs : List (Readings × A)) (b : CircuitBreaker) {failed_at : ℕ}
      → config.fallback_function ≡ none
      → b.state ≡ opened
      → b.last_failure_time ≡ some failed_at
      → All (λ c. c.0.checked < failed_at + config.timeout) cs
      → call_all config func cs b ≡ record b {
        metrics = record b.metrics { rejected_requests = b.metrics.rejected_requests + length cs };
      }
  unfolding call_all count_rejected
  open_rejects_calls func [] b plain h f early = rw add-zero
  open_rejects_calls func (c ∷ cs) b plain h f early =
      rw (call-open c.0 func c.1 b plain h f early.0) (
        rw (open_rejects_calls func cs (count_rejected b) plain h f early.1)
          (rw (add_one_more b.metrics.rejected_requests (length cs))))

  -- A counted failure of a trial call reopens the circuit, and the timeout runs from it.
  pub trial_failure_reopens :
      (t : Readings) (func : A → Outcome E R) (args : A) (e : E) (b : CircuitBreaker)
      → b.state ≡ half_open
      → b.half_open_calls +ℤ pos 1 ≤ℤ pos config.half_open_max_calls
      → func args ≡ raised e
      → config.expected_exception e ≡ true
      → let (r, c) = call config t func args b in
        (r ≡ outcome (raised e))
        × (c.state ≡ opened)
        × (c.last_failure_time ≡ some t.ended_later)
        × (c.metrics.state_transitions.half_open_to_open
            ≡ b.metrics.state_transitions.half_open_to_open + 1)
  unfolding call ◌+ℤ◌
  trial_failure_reopens t func args e b h room fe expected = ground arith

  module _ (result : A → R) (trials : 0 < config.half_open_max_calls) where
    call-trial :
        (t : Readings) (args : A) (b : CircuitBreaker)
        → b.state ≡ half_open
        → b.half_open_calls ≡ pos 0
        → b.success_count + 1 < config.success_threshold
        → let c = (call config t (λ x. returned (result x)) args b).1 in
          (c.state ≡ half_open)
          × (c.half_open_calls ≡ pos 0)
          × (c.success_count ≡ b.success_count + 1)
    unfolding call ◌+ℤ◌ ◌-ℤ◌
    call-trial t args b h none_taken few = ground arith

    call-last_trial :
        (t : Readings) (args : A) (b : CircuitBreaker)
        → b.state ≡ half_open
        → b.half_open_calls ≡ pos 0
        → config.success_threshold ≤ b.success_count + 1
        → IsRecovered (call config t (λ x. returned (result x)) args b).1
    unfolding call ◌+ℤ◌ ◌-ℤ◌
    call-last_trial t args b h none_taken enough = ground arith

    half_open_recovers :
        (cs : List (Readings × A)) (b : CircuitBreaker)
        → b.state ≡ half_open
        → b.half_open_calls ≡ pos 0
        → b.success_count < config.success_threshold
        → b.success_count + length cs ≡ config.success_threshold
        → IsRecovered (call_all config (λ x. returned (result x)) cs b)
    unfolding call_all
    half_open_recovers [] b h none_taken below e = absurd (omega arith)
    half_open_recovers (c ∷ []) b h none_taken below e =
        call-last_trial c.0 c.1 b h none_taken (omega arith)
    half_open_recovers (c ∷ d ∷ cs) b h none_taken below e =
        let (s, k, n) = call-trial c.0 c.1 b h none_taken (omega arith) in
        half_open_recovers (d ∷ cs) (call config c.0 (λ x. returned (result x)) c.1 b).1 s k
          (omega arith) (omega arith)

    call_all-after_timeout :
        (c : Readings × A) (cs : List (Readings × A)) (b : CircuitBreaker) {failed_at : ℕ}
        → b.state ≡ opened
        → b.last_failure_time ≡ some failed_at
        → failed_at + config.timeout ≤ c.0.checked
        → call_all config (λ x. returned (result x)) (c ∷ cs) b
          ≡ call_all config (λ x. returned (result x)) (c ∷ cs) (transition_to half_open b)
    unfolding call_all call
    call_all-after_timeout c cs b h f late = ground arith

    -- Once the timeout has passed, `success_threshold` calls in a row that succeed close an open
    -- circuit and set its counters to zero, if trial calls are allowed at all.
    pub open_recovers :
        (c : Readings × A) (cs : List (Readings × A)) (b : CircuitBreaker) {failed_at : ℕ}
        → b.state ≡ opened
        → b.last_failure_time ≡ some failed_at
        → failed_at + config.timeout ≤ c.0.checked
        → length (c ∷ cs) ≡ config.success_threshold
        → IsRecovered (call_all config (λ x. returned (result x)) (c ∷ cs) b)
    open_recovers c cs b h f late e =
        let (s, k, n) = enter_half_open b h in
        rw (call_all-after_timeout c cs b h f late)
          (half_open_recovers (c ∷ cs) (transition_to half_open b) s k (omega arith) (omega arith))
