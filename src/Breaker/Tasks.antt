-- ===== src/Breaker/Tasks.antt =====
-- Any number of tasks that call through one breaker, interleaved where `call` awaits the protected
-- function (services/voice-switch/circuit_breaker.py).
use vox_guard.Base.{ℕ, ◌+◌, ◌-◌, ◌≤◌, ◌<◌, ◌≡◌, String, Bool, not, ◌&&◌, arith, if◌then◌else◌}
use vox_guard.Base.Int.{pos, ◌+ℤ◌, ◌-ℤ◌, ◌≤ℤ◌}
use vox_guard.Breaker.State.{
  CircuitState, half_open, same_state, Outcome, CircuitBreakerConfig, CircuitBreaker, new_breaker,
}
use vox_guard.Breaker.Ops.{reset}
use vox_guard.Breaker.Call.{Readings, Admission, admitted, refused, start, finish}
use vox_guard.Breaker.Invariant.{
  IsConsistent, new_breaker-IsConsistent, reset-IsConsistent, start-IsConsistent,
  finish-IsConsistent,
}

-- The breaker with its environment: how many admitted calls have not come back, and how many of
-- these were in flight when the circuit last became half-open.
pub record System : Type 0 where
  pub breaker : CircuitBreaker
  pub in_flight : ℕ
  pub stale : ℕ

abbrev pub count_admitted {ℓ} : {E R : Type ℓ} → Admission E R → ℕ
count_admitted admitted = 1
count_admitted (refused _) = 0

-- Whether a change of state is an entry into the half-open state.
abbrev pub enters_half_open : CircuitState → CircuitState → Bool
enters_half_open old s = not (same_state old half_open) && same_state s half_open

module _ {ℓ} {A E R : Type ℓ} (config : CircuitBreakerConfig A E R) where
  unfoldable pub start_task : Readings → A → System → System
  unfolding start
  start_task t args s =
      let (a, b) = start config t args s.breaker in
      record {
        breaker = b;
        in_flight = s.in_flight + count_admitted a;
        stale = if enters_half_open s.breaker.state b.state then s.in_flight else s.stale;
      }

  unfoldable pub finish_task : Readings → Outcome E R → System → System
  unfolding finish
  finish_task t o s = record s {
    breaker = finish config t o s.breaker;
    in_flight = s.in_flight - 1;
  }

  -- One uninterrupted part of some task, or a reset by an operator.
  pub data Step : System → System → Type ℓ where
    starts : (s : System) (t : Readings) (args : A) → Step s (start_task t args s)
    finishes :
        (s : System) (t : Readings) (o : Outcome E R) → 0 < s.in_flight → Step s (finish_task t o s)
    resets : (s : System) → Step s (record s { breaker = reset s.breaker })

  pub data Reach (s : System) : System → Type ℓ where
    here : Reach s s
    next : {u v : System} → Reach s u → Step u v → Reach s v

  -- While half-open, the slots that are taken are the calls in flight without the stale ones.
  pub record IsAccounted (s : System) : Type 0 where
    pub consistent : IsConsistent config s.breaker
    pub slots :
        s.breaker.state ≡ half_open → s.breaker.half_open_calls +ℤ pos s.stale ≡ pos s.in_flight

abbrev pub idle : String → System
idle name = record { breaker = new_breaker name; in_flight = 0; stale = 0 }

module _ {ℓ} {A E R : Type ℓ} (config : CircuitBreakerConfig A E R)
    (fails : 0 < config.failure_threshold) (succeeds : 0 < config.success_threshold) where
  idle-IsAccounted : (name : String) → IsAccounted config (idle name)
  unfolding new_breaker
  idle-IsAccounted name = record {
    consistent = new_breaker-IsConsistent config fails succeeds name;
    slots = λ e. cc;
  }

  start_task-slots :
      (s : System) (t : Readings) (args : A)
      → IsAccounted config s
      → let u = start_task config t args s in
        u.breaker.state ≡ half_open → u.breaker.half_open_calls +ℤ pos u.stale ≡ pos u.in_flight
  unfolding start_task ◌+ℤ◌
  start_task-slots s t args h = ground arith

  finish_task-slots :
      (s : System) (t : Readings) (o : Outcome E R)
      → 0 < s.in_flight
      → IsAccounted config s
      → let u = finish_task config t o s in
        u.breaker.state ≡ half_open → u.breaker.half_open_calls +ℤ pos u.stale ≡ pos u.in_flight
  unfolding finish_task ◌+ℤ◌ ◌-ℤ◌
  finish_task-slots s t o busy h = ground arith

  Step-IsAccounted : {s u : System} → Step config s u → IsAccounted config s → IsAccounted config u
  unfolding start_task finish_task reset
  Step-IsAccounted (starts s t args) h = record {
    consistent = start-IsConsistent config fails succeeds t args s.breaker h.consistent;
    slots = start_task-slots s t args h;
  }
  Step-IsAccounted (finishes s t o busy) h = record {
    consistent = finish-IsConsistent config fails succeeds t o s.breaker h.consistent;
    slots = finish_task-slots s t o busy h;
  }
  Step-IsAccounted (resets s) h = record {
    consistent = reset-IsConsistent config fails succeeds s.breaker;
    slots = λ e. cc;
  }

  Reach-IsAccounted :
      {s u : System} → IsAccounted config s → Reach config s u → IsAccounted config u
  Reach-IsAccounted h here = h
  Reach-IsAccounted h (next r st) = Step-IsAccounted st (Reach-IsAccounted h r)

  -- With positive thresholds, whatever calls are started and finished on a new breaker, in any
  -- interleaving and with any outcomes and clock readings, and whenever it is reset: the metrics
  -- agree with the state and add up, no counter has reached its threshold in the state that it
  -- belongs to, an open circuit has a time of failure, and the transition counters balance.
  pub Reach-IsConsistent :
      (name : String) {s : System} → Reach config (idle name) s → IsConsistent config s.breaker
  Reach-IsConsistent name r = (Reach-IsAccounted (idle-IsAccounted name) r).consistent

  slots_bound :
      (s : System)
      → s.breaker.half_open_calls ≤ℤ pos config.half_open_max_calls
      → s.breaker.half_open_calls +ℤ pos s.stale ≡ pos s.in_flight
      → s.in_flight ≤ config.half_open_max_calls + s.stale
  unfolding ◌+ℤ◌
  slots_bound s capped e = ground arith

  -- With positive thresholds, in every reachable half-open state the calls in flight are at most
  -- `half_open_max_calls` more than those that were in flight when the circuit became half-open.
  pub half_open_bound :
      (name : String) {s : System}
      → Reach config (idle name) s
      → s.breaker.state ≡ half_open
      → s.in_flight ≤ config.half_open_max_calls + s.stale
  half_open_bound name {s} r e =
      let h = Reach-IsAccounted (idle-IsAccounted name) r in
      slots_bound s (h.consistent.slots_capped e) (h.slots e)
