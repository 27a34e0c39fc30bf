-- ===== src/Breaker/Slots.antt =====
-- The slots of the half-open state, which calls give back that never took one
-- (services/voice-switch/circuit_breaker.py, the `finally` clause of `call`).
use vox_guard.Base.{ℕ, zero, suc, ◌+◌, ◌≡◌, refl, false, arith}
use vox_guard.Base.Int.{ℤ, pos, ◌+ℤ◌, ◌-ℤ◌, ◌≤ℤ◌, int_laws}
use vox_guard.Breaker.State.{half_open, raised, CircuitBreakerConfig, CircuitBreaker}
use vox_guard.Breaker.Call.{Readings, start, finish}
use vox_guard.Breaker.Tasks.{count_admitted}

sub_none : (a : ℤ) → a -ℤ pos 0 ≡ a
sub_none a = omega int_laws

sub_one_more : (a : ℤ) (n : ℕ) → (a -ℤ pos 1) -ℤ pos n ≡ a -ℤ pos (suc n)
sub_one_more a n = omega int_laws

module _ {ℓ} {A E R : Type ℓ} (config : CircuitBreakerConfig A E R) (t : Readings) (args : A) where
  -- `n` calls are started, one after the other; how many are admitted.
  unfoldable pub count_starts : ℕ → CircuitBreaker → ℕ
  unfolding start
  count_starts zero b = 0
  count_starts (suc n) b = let (a, c) = start config t args b in count_admitted a + count_starts n c

  count_starts-half_open :
      (n : ℕ) (b : CircuitBreaker)
      → b.state ≡ half_open
      → b.half_open_calls +ℤ pos n ≤ℤ pos config.half_open_max_calls
      → count_starts n b ≡ n
  unfolding count_starts ◌+ℤ◌
  count_starts-half_open zero b h room = refl
  count_starts-half_open (suc n) b h room = ground (
    arith,
    count_starts-half_open n (record b { half_open_calls = b.half_open_calls +ℤ pos 1 }) h,
  )

  module _ (e : E) (unexpected : config.expected_exception e ≡ false) where
    -- `n` calls in flight come back with an exception of another type than the expected one.
    unfoldable pub fail_unexpectedly : ℕ → CircuitBreaker → CircuitBreaker
    unfolding finish
    fail_unexpectedly zero b = b
    fail_unexpectedly (suc n) b = fail_unexpectedly n (finish config t (raised e) b)

    finish-half_open :
        (b : CircuitBreaker)
        → b.state ≡ half_open
        → finish config t (raised e) b ≡ record b { half_open_calls = b.half_open_calls -ℤ pos 1 }
    unfolding finish
    finish-half_open b h = ground arith

    fail_unexpectedly-half_open :
        (n : ℕ) (b : CircuitBreaker)
        → b.state ≡ half_open
        → fail_unexpectedly n b ≡ record b { half_open_calls = b.half_open_calls -ℤ pos n }
    unfolding fail_unexpectedly
    fail_unexpectedly-half_open zero b h = rw sub_none
    fail_unexpectedly-half_open (suc n) b h = rw (finish-half_open b h) (
        rw (
          fail_unexpectedly-half_open n (record b { half_open_calls = b.half_open_calls -ℤ pos 1 })
              h,
          sub_one_more,
        ))

    -- When `n` calls that were in flight before the circuit became half-open, none of which holds
    -- a slot, come back with an exception that is not counted, the next
    -- `half_open_max_calls + n` calls are all admitted on trial: `n` more than the limit.
    pub stale_calls_free_slots :
        (n : ℕ) (b : CircuitBreaker)
        → b.state ≡ half_open
        → b.half_open_calls ≡ pos 0
        → count_starts (config.half_open_max_calls + n) (fail_unexpectedly n b)
          ≡ config.half_open_max_calls + n
    stale_calls_free_slots n b h none_taken = rw (fail_unexpectedly-half_open n b h) (
        count_starts-half_open (config.half_open_max_calls + n)
          (record b { half_open_calls = b.half_open_calls -ℤ pos n }) h
          (rw none_taken (omega int_laws)))
