-- ===== src/Ml/Retraining/Failure.antt =====
-- What becomes of the runs (services/ml-pipeline/retraining_orchestrator.py).
use vox_guard.Base.{
  ℕ, suc, ◌+◌, ◌≡◌, refl, String, Bool, true, false, Option, none, some, List, [], ◌∷◌, leb, length,
  All, if◌then◌else◌, arith, ap, ◌∙◌,
}
use vox_guard.Base.Dict.{Dict}
use vox_guard.Ml.Collector.Samples.{Sample}
use vox_guard.Ml.Collector.Ops.{DataCollector}
use vox_guard.Ml.Retraining.Calls.{binds}
use vox_guard.Ml.Retraining.State.{
  failed, RetrainingConfig, Problem, RetrainingResult, RetrainingOrchestrator, Outcome, returned,
  raised, Action, pure, ◌>>=◌, and_then, type_error, training_error,
}
use vox_guard.Ml.Retraining.Steps.{
  Surroundings, require, gathered, collect_data, train_model, evaluate_model,
}
use vox_guard.Ml.Retraining.Runs.{begin_run, end_run, pipeline, run_retraining, run_each}

-- All but the collector is the same.
record SameButCollector (o p : RetrainingOrchestrator) : Type 0 where
  same_registry : p.model_registry ≡ o.model_registry
  same_total : p.total_runs ≡ o.total_runs
  same_successful : p.successful_runs ≡ o.successful_runs
  same_failed : p.failed_runs ≡ o.failed_runs

-- The action raises, and changes nothing but the collector.
module _ {A : Type 0} where
  abbrev Raises : RetrainingOrchestrator → Outcome A × RetrainingOrchestrator → Type 0
  Raises o r = (e : Problem) × (r.0 ≡ raised e) × SameButCollector o r.1

gathered-Same :
    (o : RetrainingOrchestrator) (r : Option (List Sample) × DataCollector)
    → SameButCollector o (gathered o r).1
gathered-Same o (none, c) = record {
  same_registry = refl;
  same_total = refl;
  same_successful = refl;
  same_failed = refl;
}
gathered-Same o (some df, c) = record {
  same_registry = refl;
  same_total = refl;
  same_successful = refl;
  same_failed = refl;
}

-- If the first action changes nothing but the collector and the second one raises, so do both.
and_then-Raises :
    {A B : Type 0} (f : A → Action B) (o : RetrainingOrchestrator)
    (r : Outcome A × RetrainingOrchestrator)
    → SameButCollector o r.1
    → ((a : A) (p : RetrainingOrchestrator) → Raises p (f a p))
    → Raises o (and_then f r)
and_then-Raises f o (returned a, p) same h =
    let (e, ran, then_on) = h a p in
    (
      e,
      ran,
      record {
        same_registry = then_on.same_registry ∙ same.same_registry;
        same_total = then_on.same_total ∙ same.same_total;
        same_successful = then_on.same_successful ∙ same.same_successful;
        same_failed = then_on.same_failed ∙ same.same_failed;
      },
    )
and_then-Raises f o (raised e, p) same h = (e, refl, same)

all_same : (o : RetrainingOrchestrator) → SameButCollector o o
all_same o = record {
  same_registry = refl;
  same_total = refl;
  same_successful = refl;
  same_failed = refl;
}

-- The evaluator takes two arguments and is given three.
evaluation-Raises :
    {B : Type 0} (s : Surroundings) (f : Dict ℕ → Action B) (o : RetrainingOrchestrator)
    → Raises o ((evaluate_model s >>= f) o)
unfolding evaluate_model binds
evaluation-Raises s f o = (type_error, refl, all_same o)

require-Same :
    {A : Type 0} (b : Bool) (p : Problem) (a : A) (o : RetrainingOrchestrator)
    → SameButCollector o (and_then (λ _. pure a) (require b p o)).1
unfolding require
require-Same true p a o = all_same o
require-Same false p a o = all_same o

require-Raises :
    {B : Type 0} (b : Bool) (p : Problem) (f : Action B) (o : RetrainingOrchestrator)
    → ((q : RetrainingOrchestrator) → Raises q (f q))
    → Raises o (and_then (λ _. f) (require b p o))
unfolding require
require-Raises true p f o h = h o
require-Raises false p f o h = (p, refl, all_same o)

training-Raises :
    {B : Type 0} (s : Surroundings) (f : String × String → Dict ℕ → Action B)
    (o : RetrainingOrchestrator)
    → Raises o ((train_model s >>= λ model. evaluate_model s >>= f model) o)
unfolding train_model binds
training-Raises s f o =
    and_then-Raises (λ model. evaluate_model s >>= f model) o (train_model s o)
      (require-Same s.is_trained training_error _ o) (λ model p. evaluation-Raises s (f model) p)

pipeline-Raises :
    (config : RetrainingConfig) (s : Surroundings) (o : RetrainingOrchestrator)
    → Raises o (pipeline config s o)
unfolding pipeline collect_data
pipeline-Raises config s o =
    and_then-Raises {A = List Sample} _ o (collect_data s o) (gathered-Same o _) (λ df p.
      require-Raises (leb config.min_samples_required (length df)) _ _ p (training-Raises s _))

-- What a run does to an orchestrator that is not running.
record Fails (s : Surroundings) (o : RetrainingOrchestrator)
    (r : RetrainingResult × RetrainingOrchestrator) : Type 0 where
  is_failed : r.0.status ≡ failed
  same_registry : r.1.model_registry ≡ o.model_registry
  is_idle : r.1.is_running ≡ false
  is_recorded : r.1.last_result ≡ some r.0
  one_more : r.1.total_runs ≡ o.total_runs + 1
  none_more : r.1.successful_runs ≡ o.successful_runs
  one_more_failed : r.1.failed_runs ≡ o.failed_runs + 1

end_run-Fails :
    (s : Surroundings) (o : RetrainingOrchestrator)
    (r : Outcome RetrainingResult × RetrainingOrchestrator)
    → Raises (begin_run o) r
    → Fails s o (end_run s r)
unfolding begin_run end_run
end_run-Fails s o (returned x, p) (e, ran, same) = absurd (ground (arith, ran))
end_run-Fails s o (raised x, p) (e, ran, same) = record {
  is_failed = refl;
  same_registry = same.same_registry;
  is_idle = refl;
  is_recorded = refl;
  one_more = same.same_total;
  none_more = same.same_successful;
  one_more_failed = omega (arith, same.same_failed);
}

unless_running :
    (s : Surroundings) (o : RetrainingOrchestrator) (b : Bool)
    (x y : RetrainingResult × RetrainingOrchestrator)
    → b ≡ false
    → Fails s o y
    → Fails s o (if b then x else y)
unless_running s o true x y idle h = absurd (ground arith)
unless_running s o false x y idle h = h

run_retraining-Fails :
    (config : RetrainingConfig) (s : Surroundings) (o : RetrainingOrchestrator)
    → o.is_running ≡ false
    → Fails s o (run_retraining config s o)
unfolding run_retraining
run_retraining-Fails config s o idle =
    unless_running s o o.is_running _ _ idle
      (end_run-Fails s o _ (pipeline-Raises config s (begin_run o)))

-- What a list of runs does.
pub record AllFail (o : RetrainingOrchestrator) (n : ℕ)
    (r : List RetrainingResult × RetrainingOrchestrator) : Type 0 where
  pub are_failed : All (λ (x : RetrainingResult). x.status ≡ failed) r.0
  pub as_many : length r.0 ≡ n
  pub same_registry : r.1.model_registry ≡ o.model_registry
  pub is_idle : r.1.is_running ≡ false
  pub more : r.1.total_runs ≡ o.total_runs + n
  pub same_successful : r.1.successful_runs ≡ o.successful_runs
  pub more_failed : r.1.failed_runs ≡ o.failed_runs + n

-- Whatever the databases hold, however the training goes and whatever is configured: of any list of
-- runs, one after the other, of an orchestrator that is not running, every one fails. The registry
-- is as it was, each run is counted and counted as failed, and no run is left marked as running.
pub run_each-AllFail :
    (config : RetrainingConfig) (ss : List Surroundings) (o : RetrainingOrchestrator)
    → o.is_running ≡ false
    → AllFail o (length ss) (run_each config ss o)
unfolding run_each
run_each-AllFail config [] o idle = record {
  are_failed = tt;
  as_many = refl;
  same_registry = refl;
  is_idle = idle;
  more = omega arith;
  same_successful = refl;
  more_failed = omega arith;
}
run_each-AllFail config (s ∷ ss) o idle =
    let first = run_retraining-Fails config s o idle in
    let rest = run_each-AllFail config ss (run_retraining config s o).1 first.is_idle in
    record {
      are_failed = (first.is_failed, rest.are_failed);
      as_many = ap suc rest.as_many;
      same_registry = rest.same_registry ∙ first.same_registry;
      is_idle = rest.is_idle;
      more = omega (arith, rest.more, first.one_more);
      same_successful = rest.same_successful ∙ first.none_more;
      more_failed = omega (arith, rest.more_failed, first.one_more_failed);
    }
