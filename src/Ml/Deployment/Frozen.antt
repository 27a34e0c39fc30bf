-- ===== src/Ml/Deployment/Frozen.antt =====
-- What the manager's methods come to, given that the splitter has no `set_traffic_split` and the
-- registry no `set_challenger` (services/ml-pipeline/ab_testing/deployment_manager.py).
use vox_guard.Base.{
  ℕ, ◌≡◌, refl, String, true, false, some, List, [], ◌∷◌, arith, str_eq, if◌then◌else◌,
}
use vox_guard.Base.Dict.{contains}
use vox_guard.Ml.Registry.Ops
use vox_guard.Ml.Registry.Soundness.{IsSound}
use vox_guard.Ml.Registry.Champion.{promote_to_champion-Promotes}
use vox_guard.Ml.Deployment.State.{AbTestConfig, Recommendation, AbTestDeploymentManager}
use vox_guard.Ml.Deployment.Evaluation.{
  Statistics, Prediction, record_prediction, collect_and_analyze_metrics,
}
use vox_guard.Ml.Deployment.Manager.{
  start_pilot, ramp_up, promote_to_champion, rollback, record_all, evaluate_pilot, monitor,
  next_phase, final_phase, run_gradual_rollout, is_roll_back, is_promote,
}

-- The phase and the traffic are the same.
pub record SameDeployment (m s : AbTestDeploymentManager) : Type 0 where
  pub phase : s.phase ≡ m.phase
  pub phase_start_time : s.phase_start_time ≡ m.phase_start_time
  pub current_traffic_pct : s.current_traffic_pct ≡ m.current_traffic_pct
  pub traffic_splitter : s.traffic_splitter ≡ m.traffic_splitter

start_pilot_fails :
    (config : AbTestConfig) (now : ℕ) (m : AbTestDeploymentManager)
    → start_pilot config now m ≡ (false, m)
unfolding start_pilot
start_pilot_fails config now m = refl

ramp_up_fails : (target now : ℕ) (m : AbTestDeploymentManager) → ramp_up target now m ≡ (false, m)
unfolding ramp_up
ramp_up_fails target now m = refl

rollback_fails : (m : AbTestDeploymentManager) → rollback m ≡ (false, m)
unfolding rollback
rollback_fails m = refl

promote_to_champion_fails :
    (config : AbTestConfig) (date : String) (m : AbTestDeploymentManager)
    → promote_to_champion config date m ≡ (
      false,
      record m {
        registry = (Ops.promote_to_champion date config.challenger_model_id m.registry).1;
      },
    )
unfolding promote_to_champion
promote_to_champion_fails config date m = ground arith

-- A request to the manager.
pub data Command : Type 0 where
  start : ℕ → Command
  ramp : ℕ → ℕ → Command
  promotion : String → Command
  rolling_back : Command
  evaluation : Command
  recording : Prediction → Command

module _ (stats : Statistics) (config : AbTestConfig) where
  unfoldable pub run_command : Command → AbTestDeploymentManager → AbTestDeploymentManager
  run_command (start now) m = (start_pilot config now m).1
  run_command (ramp target now) m = (ramp_up target now m).1
  run_command (promotion date) m = (promote_to_champion config date m).1
  run_command rolling_back m = (rollback m).1
  run_command evaluation m = (evaluate_pilot stats config m).1
  run_command (recording p) m = record_prediction p m

  unfoldable pub run_commands : List Command → AbTestDeploymentManager → AbTestDeploymentManager
  run_commands [] m = m
  run_commands (c ∷ cs) m = run_commands cs (run_command c m)

  evaluate_pilot-unchanged : (m : AbTestDeploymentManager) → (evaluate_pilot stats config m).1 ≡ m
  unfolding evaluate_pilot
  evaluate_pilot-unchanged m = ground (arith, rollback_fails m)

  run_command-SameDeployment :
      (c : Command) (m : AbTestDeploymentManager) → SameDeployment m (run_command c m)
  unfolding run_command record_prediction
  run_command-SameDeployment (start now) m = ground (arith, start_pilot_fails config now m)
  run_command-SameDeployment (ramp target now) m = ground (arith, ramp_up_fails target now m)
  run_command-SameDeployment (promotion date) m =
      ground (arith, promote_to_champion_fails config date m)
  run_command-SameDeployment rolling_back m = ground (arith, rollback_fails m)
  run_command-SameDeployment evaluation m = ground (arith, evaluate_pilot-unchanged m)
  run_command-SameDeployment (recording p) m = ground arith

  -- No sequence of calls of the manager's methods, with any arguments, changes the phase, its start
  -- or the traffic: the pilot is never entered, and a rollback has no effect.
  pub run_commands-SameDeployment :
      (cs : List Command) (m : AbTestDeploymentManager) → SameDeployment m (run_commands cs m)
  unfolding run_commands
  run_commands-SameDeployment [] m = ground arith
  run_commands-SameDeployment (c ∷ cs) m =
      ground
        (arith, run_command-SameDeployment c m, run_commands-SameDeployment cs (run_command c m))

  abbrev recommended : AbTestDeploymentManager → Recommendation
  recommended m = (collect_and_analyze_metrics stats config m).recommendation

  monitor_lem :
      (ps : List Prediction) (m : AbTestDeploymentManager)
      → monitor stats config ps m ≡ (recommended (record_all ps m), record_all ps m)
  unfolding monitor evaluate_pilot
  monitor_lem ps m = ground (arith, rollback_fails (record_all ps m))

  -- The rollout without its traffic: a recommendation to roll back ends it, and the last one to
  -- promote makes the challenger the registry's champion.
  abbrev next_log :
      List Prediction
      → Recommendation × AbTestDeploymentManager
      → Recommendation × AbTestDeploymentManager
  next_log ps (r, m) =
      if is_roll_back r then (r, m) else (recommended (record_all ps m), record_all ps m)

  abbrev crown_last : String → Recommendation × AbTestDeploymentManager → AbTestDeploymentManager
  crown_last date (r, m) =
      if is_promote r
      then record m {
        registry = (Ops.promote_to_champion date config.challenger_model_id m.registry).1;
      }
      else m

  abbrev pub rollout_effect :
      String
      → List Prediction
      → List Prediction
      → List Prediction
      → List Prediction
      → AbTestDeploymentManager
      → AbTestDeploymentManager
  rollout_effect date b₁ b₂ b₃ b₄ m =
      crown_last date
        (next_log b₄ (next_log b₃ (next_log b₂ (recommended (record_all b₁ m), record_all b₁ m))))

  next_phase_lem :
      (target now : ℕ) (ps : List Prediction) (x : Recommendation × AbTestDeploymentManager)
      → next_phase stats config target now ps x ≡ next_log ps x
  unfolding next_phase
  next_phase_lem target now ps x = ground (arith, ramp_up_fails target now x.1, monitor_lem ps x.1)

  final_phase_lem :
      (date : String) (x : Recommendation × AbTestDeploymentManager)
      → final_phase stats config date x ≡ crown_last date x
  unfolding final_phase
  final_phase_lem date x = ground (arith, promote_to_champion_fails config date x.1)

  -- A gradual rollout, at any times and with any predictions recorded while it waits, comes to
  -- this: the predictions are recorded until an evaluation asks for a rollback, no traffic is moved
  -- and the phase stays, and if the last evaluation says to promote, the challenger is promoted in
  -- the registry alone.
  pub run_gradual_rollout-effect :
      (t₁ t₂ t₃ t₄ : ℕ) (date : String) (b₁ b₂ b₃ b₄ : List Prediction)
      (m : AbTestDeploymentManager)
      → run_gradual_rollout stats config t₁ t₂ t₃ t₄ date b₁ b₂ b₃ b₄ m
        ≡ rollout_effect date b₁ b₂ b₃ b₄ m
  unfolding run_gradual_rollout
  run_gradual_rollout-effect t₁ t₂ t₃ t₄ date b₁ b₂ b₃ b₄ m =
      simp (start_pilot_fails, monitor_lem, next_phase_lem, final_phase_lem)

-- Promotion fails half-way: for a challenger that a sound registry lists, the manager's method
-- returns false and leaves phase and traffic as they were, but the challenger is the registry's
-- champion from then on.
pub promote_to_champion-half_done :
    (config : AbTestConfig) (date : String) (m : AbTestDeploymentManager)
    → IsSound m.registry
    → contains config.challenger_model_id m.registry.index.models ≡ true
    → str_eq config.challenger_model_id "" ≡ false
    → let (done, s) = promote_to_champion config date m in
      (done ≡ false)
      × SameDeployment m s
      × (s.registry.index.champion ≡ some config.challenger_model_id)
promote_to_champion-half_done config date m h listed named =
    let (r, ran, p) =
      promote_to_champion-Promotes date config.challenger_model_id m.registry h listed named in
    ground (arith, promote_to_champion_fails config date m, p.champion)
