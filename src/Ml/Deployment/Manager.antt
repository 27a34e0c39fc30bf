-- ===== src/Ml/Deployment/Manager.antt =====
-- The methods of `ABTestDeploymentManager`
-- (services/ml-pipeline/ab_testing/deployment_manager.py). A method that another class lacks is
-- looked up where Python looks it up, among the attributes of that class.
use vox_guard.Base.{
  ℕ, ◌-◌, ◌*◌, String, Bool, true, false, Option, none, some, List, [], ◌∷◌, any, ltb,
  if◌then◌else◌, str_eq,
}
use vox_guard.Ml.Registry.Ops
use vox_guard.Ml.Registry.State.{ModelRegistry}
use vox_guard.Ml.Splitter.Ops.{TrafficSplitter, one, new_splitter, update_traffic_split}
use vox_guard.Ml.Deployment.State.{
  DeploymentPhase, AbTestConfig, Recommendation, promote, roll_back, MetricsLog, AbTestMetrics,
  AbTestDeploymentManager, Action, ◌>>◌,
}
use vox_guard.Ml.Deployment.Evaluation.{
  Statistics, Prediction, record_prediction, collect_and_analyze_metrics,
}

abbrev pub no_log : MetricsLog
no_log = record { latencies = []; predictions = []; errors = [] }

abbrev pub manage : ModelRegistry → Option TrafficSplitter → Option AbTestDeploymentManager
manage registry none = none
manage registry (some splitter) = some (record {
  registry = registry;
  traffic_splitter = splitter;
  phase = DeploymentPhase.inactive;
  phase_start_time = none;
  current_traffic_pct = 0;
  champion_metrics = no_log;
  challenger_metrics = no_log;
})

-- `__init__`, for a pilot share of at most 1.0; none is the splitter's `ValueError`.
unfoldable pub new_manager : AbTestConfig → ModelRegistry → Option AbTestDeploymentManager
unfolding new_splitter
new_manager config registry =
    manage registry (new_splitter (one - config.pilot_traffic) config.pilot_traffic)

-- The names that an instance of `TrafficSplitter` has.
abbrev pub splitter_attributes : List String
splitter_attributes =
    "config" ∷ "model_a_count" ∷ "model_b_count" ∷ "should_use_model_b" ∷ "get_model_assignment"
    ∷ "update_traffic_split" ∷ "get_traffic_stats" ∷ "reset_counters" ∷ []

-- The names that an instance of `ModelRegistry` has.
abbrev pub registry_attributes : List String
registry_attributes =
    "METADATA_FILE" ∷ "REGISTRY_INDEX" ∷ "registry_path" ∷ "index_path" ∷ "index" ∷ "_load_index"
    ∷ "_save_index" ∷ "register_model" ∷ "get_model_path" ∷ "get_metadata" ∷ "update_metadata"
    ∷ "promote_to_champion" ∷ "get_champion" ∷ "list_models" ∷ "compare_models" ∷ "archive_model"
    ∷ "delete_model" ∷ []

-- `getattr`, which raises an `AttributeError` for a name that is not there.
unfoldable pub get_attribute : List String → String → Action (Unit {0})
get_attribute attributes name m =
    if any (λ a. str_eq a name) attributes then (some tt, m) else (none, m)

abbrev pub split_with : Option TrafficSplitter → Action (Unit {0})
split_with none m = (none, m)
split_with (some s) m = (some tt, record m { traffic_splitter = s })

-- `self.traffic_splitter.set_traffic_split(...)`. The splitter's method for this has another name,
-- and its effect stands here for what the call asks for.
unfoldable pub set_traffic_split : ℕ → ℕ → Action (Unit {0})
unfolding get_attribute
set_traffic_split a b = do
  get_attribute splitter_attributes "set_traffic_split"
  (λ m. split_with (update_traffic_split a b m.traffic_splitter) m)

-- `self.registry.set_challenger(...)`: if the attribute were there, what it does is not known.
unfoldable pub set_challenger : Action (Unit {0})
unfolding get_attribute
set_challenger = get_attribute registry_attributes "set_challenger"

abbrev pub outcome_of : Option (Unit {0}) × AbTestDeploymentManager → Bool × AbTestDeploymentManager
outcome_of (none, m) = (false, m)
outcome_of (some _, m) = (true, m)

-- `try: body; return True; except Exception: return False`
abbrev pub attempt : Action (Unit {0}) → AbTestDeploymentManager → Bool × AbTestDeploymentManager
attempt body m = outcome_of (body m)

unfoldable pub enter_pilot : AbTestConfig → ℕ → Action (Unit {0})
enter_pilot config now m = (
  some tt,
  record m {
    phase = DeploymentPhase.pilot;
    phase_start_time = some now;
    current_traffic_pct = config.pilot_traffic * 100;
  },
)

unfoldable pub start_pilot :
    AbTestConfig → ℕ → AbTestDeploymentManager → Bool × AbTestDeploymentManager
unfolding set_challenger set_traffic_split enter_pilot
start_pilot config now = attempt do
  set_challenger
  set_traffic_split (one - config.pilot_traffic) config.pilot_traffic
  enter_pilot config now

unfoldable pub enter_ramp_up : ℕ → ℕ → Action (Unit {0})
enter_ramp_up target now m = (
  some tt,
  record m {
    phase = if ltb target one then DeploymentPhase.ramp_up else DeploymentPhase.full_rollout;
    current_traffic_pct = target * 100;
    phase_start_time = some now;
  },
)

unfoldable pub ramp_up : ℕ → ℕ → AbTestDeploymentManager → Bool × AbTestDeploymentManager
unfolding set_traffic_split enter_ramp_up
ramp_up target now =
    let target' = if ltb one target then one else target in
    attempt do set_traffic_split (one - target') target'; enter_ramp_up target' now

-- The registry's answer is not looked at; an exception from it is one here.
abbrev pub in_registry :
    {A : Type 0}
    → Option A × ModelRegistry
    → AbTestDeploymentManager
    → Option (Unit {0}) × AbTestDeploymentManager
in_registry (none, r) m = (none, record m { registry = r })
in_registry (some _, r) m = (some tt, record m { registry = r })

unfoldable pub promote_in_registry : AbTestConfig → String → Action (Unit {0})
promote_in_registry config date m =
    in_registry (Ops.promote_to_champion date config.challenger_model_id m.registry) m

abbrev pub enter_full_rollout : Action (Unit {0})
enter_full_rollout m =
    (some tt, record m { phase = DeploymentPhase.full_rollout; current_traffic_pct = one * 100 })

-- `date` is the time as the registry writes it.
unfoldable pub promote_to_champion :
    AbTestConfig → String → AbTestDeploymentManager → Bool × AbTestDeploymentManager
unfolding promote_in_registry set_traffic_split
promote_to_champion config date =
    attempt do promote_in_registry config date; set_traffic_split 0 one; enter_full_rollout

abbrev pub enter_rollback : Action (Unit {0})
enter_rollback m = (some tt, record m { phase = DeploymentPhase.rollback; current_traffic_pct = 0 })

unfoldable pub rollback : AbTestDeploymentManager → Bool × AbTestDeploymentManager
unfolding set_traffic_split
rollback = attempt do set_traffic_split one 0; enter_rollback

abbrev pub is_roll_back : Recommendation → Bool
is_roll_back roll_back = true
is_roll_back _ = false

abbrev pub is_promote : Recommendation → Bool
is_promote promote = true
is_promote _ = false

unfoldable pub record_all : List Prediction → AbTestDeploymentManager → AbTestDeploymentManager
unfolding record_prediction
record_all [] m = m
record_all (p ∷ ps) m = record_all ps (record_prediction p m)

module _ (stats : Statistics) (config : AbTestConfig) where
  unfoldable pub evaluate_pilot : AbTestDeploymentManager → AbTestMetrics × AbTestDeploymentManager
  unfolding rollback
  evaluate_pilot m =
      let metrics = collect_and_analyze_metrics stats config m in
      (metrics, if is_roll_back metrics.recommendation then (rollback m).1 else m)

  -- Wait, while predictions are recorded, and evaluate.
  unfoldable pub monitor :
      List Prediction → AbTestDeploymentManager → Recommendation × AbTestDeploymentManager
  unfolding evaluate_pilot record_all
  monitor predictions m =
      let (metrics, m') = evaluate_pilot (record_all predictions m) in (metrics.recommendation, m')

  -- A phase after the pilot: if the last evaluation did not abort the rollout, ramp up, monitor.
  unfoldable pub next_phase :
      ℕ
      → ℕ
      → List Prediction
      → Recommendation × AbTestDeploymentManager
      → Recommendation × AbTestDeploymentManager
  unfolding monitor ramp_up
  next_phase target now predictions (r, m) =
      if is_roll_back r then (r, m) else monitor predictions (ramp_up target now m).1

  unfoldable pub final_phase :
      String → Recommendation × AbTestDeploymentManager → AbTestDeploymentManager
  unfolding promote_to_champion
  final_phase date (r, m) = if is_promote r then (promote_to_champion config date m).1 else m

  -- `run_gradual_rollout`: the clock at the pilot and the three ramp-ups, the date of a promotion,
  -- and the predictions that other tasks record during the four waits.
  unfoldable pub run_gradual_rollout :
      ℕ
      → ℕ
      → ℕ
      → ℕ
      → String
      → List Prediction
      → List Prediction
      → List Prediction
      → List Prediction
      → AbTestDeploymentManager
      → AbTestDeploymentManager
  run_gradual_rollout t₁ t₂ t₃ t₄ date b₁ b₂ b₃ b₄ m = final_phase date (
      next_phase 5000 t₄ b₄
        (next_phase 2000 t₃ b₃ (next_phase 1000 t₂ b₂ (monitor b₁ (start_pilot config t₁ m).1))))
