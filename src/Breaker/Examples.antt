-- ===== src/Breaker/Examples.antt =====
-- A breaker with small thresholds, at work.
use vox_guard.Base.{ℕ, ◌≡◌, refl, Bool, none, some, [], ◌∷◌, arith, leb}
use vox_guard.Base.Int.{pos}
use vox_guard.Breaker.State.{
  closed, opened, half_open, returned, raised, CircuitBreakerConfig, CircuitBreaker, new_breaker,
}
use vox_guard.Breaker.Call.{Readings, call_all}
use vox_guard.Breaker.Invariant.{IsConsistent}
use vox_guard.Breaker.Tasks.{
  System, idle, Reach, here, next, starts, finishes, start_task, finish_task, Reach-IsConsistent,
}
use vox_guard.Breaker.Slots.{count_starts, fail_unexpectedly, stale_calls_free_slots}
use vox_guard.Breaker.Sequence.{IsRecovered, open_recovers}

-- Errors are numbers, and those below 100 are of the expected type.
abbrev expected : ℕ → Bool
expected e = leb e 99

abbrev config : CircuitBreakerConfig ℕ ℕ ℕ
config = record {
  failure_threshold = 2;
  success_threshold = 2;
  timeout = 30;
  half_open_max_calls = 3;
  expected_exception = expected;
  fallback_function = none;
}

-- The clock stands at one tick during a call.
abbrev at_tick : ℕ → Readings
at_tick n = record { checked = n; refused = n; ended = n; ended_later = n }

abbrev fresh : CircuitBreaker
fresh = record {
  name = "db";
  metrics = record {
    total_requests = 0;
    successful_requests = 0;
    failed_requests = 0;
    rejected_requests = 0;
    state_transitions = record {
      closed_to_open = 0;
      open_to_half_open = 0;
      half_open_to_closed = 0;
      half_open_to_open = 0;
    };
    last_failure_time = none;
    last_success_time = none;
    current_state = closed;
  };
  state = closed;
  failure_count = 0;
  success_count = 0;
  last_failure_time = none;
  half_open_calls = pos 0;
}

abbrev tripped : CircuitBreaker
tripped = record fresh { state = opened; last_failure_time = some 7 }

abbrev probing : CircuitBreaker
probing = record fresh { state = half_open; last_failure_time = some 7 }

new_is_fresh : new_breaker "db" ≡ fresh
unfolding new_breaker
new_is_fresh = refl

-- Two failures open the circuit, and the breaker is back after two successes.
life_cycle :
    (call_all config (λ x. raised x) ((at_tick 5, 1) ∷ (at_tick 6, 1) ∷ []) fresh).state ≡ opened
unfolding call_all
life_cycle = refl

open_recovers_example :
    IsRecovered (call_all config (λ x. returned x) ((at_tick 37, 1) ∷ (at_tick 38, 1) ∷ []) tripped)
open_recovers_example =
    open_recovers config (λ x. x) (omega arith) (at_tick 37, 1) ((at_tick 38, 1) ∷ []) tripped
      {failed_at = 7} refl refl (omega arith) refl

stale_calls_free_slots_example :
    count_starts config
      (at_tick 50)
      1
      5
      (fail_unexpectedly config (at_tick 50) 1 500 refl 2 probing)
    ≡ 5
stale_calls_free_slots_example =
    stale_calls_free_slots config (at_tick 50) 1 500 refl 2 probing refl refl

-- Three calls start, two fail and open the circuit, and a fourth call makes it half-open while the
-- third is still in flight.
abbrev s1 : System
s1 = start_task config (at_tick 1) 1 (idle "db")

abbrev s2 : System
s2 = start_task config (at_tick 2) 1 s1

abbrev s3 : System
s3 = start_task config (at_tick 3) 1 s2

abbrev s4 : System
s4 = finish_task config (at_tick 6) (raised 1) s3

abbrev s5 : System
s5 = finish_task config (at_tick 7) (raised 1) s4

abbrev s6 : System
s6 = start_task config (at_tick 40) 1 s5

s6-Reach : Reach config (idle "db") s6
unfolding start_task finish_task new_breaker
s6-Reach =
    next
      (next
        (next
          (next (next (next here (starts (idle "db") (at_tick 1) 1)) (starts s1 (at_tick 2) 1))
            (starts s2 (at_tick 3) 1))
          (finishes s3 (at_tick 6) (raised 1) (omega arith)))
        (finishes s4 (at_tick 7) (raised 1) (omega arith)))
      (starts s5 (at_tick 40) 1)

Reach-IsConsistent_example : IsConsistent config s6.breaker
Reach-IsConsistent_example = Reach-IsConsistent config (omega arith) (omega arith) "db" s6-Reach
