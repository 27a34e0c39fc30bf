-- ===== src/Domain/Alert/Workflow.antt =====
-- The workflow of an alert (services/sip-processor/app/domain/entities/entities.py).
use vox_guard.Base.{ℕ, ◌≡◌, String, Bool, true, false, Option, none, some, arith}
use vox_guard.Domain.Result.{Error, ok, err}
use vox_guard.Domain.Msisdn.Defs.{Msisdn}
use vox_guard.Domain.Alert.Defs.{
  acknowledged, investigating, resolved, reported_ncc, ResolutionType, FraudAlert, Instants,
  Detection, acknowledge, start_investigation, resolve, report_to_ncc, new_alert,
}

-- One successful call of a method.
pub data Step : FraudAlert → FraudAlert → Type 0 where
  acknowledges :
      {a b : FraudAlert} (user : String) (t : Instants) → acknowledge user t a ≡ ok b → Step a b
  investigates : {a b : FraudAlert} (now : ℕ) → start_investigation now a ≡ ok b → Step a b
  resolves :
      {a b : FraudAlert} (user : String) (r : ResolutionType) (notes : Option String) (t : Instants)
      → resolve user r notes t a ≡ ok b
      → Step a b
  reports :
      {a b : FraudAlert} (report : String) (now : ℕ) → b ≡ report_to_ncc report now a → Step a b

pub data Reach (a : FraudAlert) : FraudAlert → Type 0 where
  here : Reach a a
  next : {b c : FraudAlert} → Reach a b → Step b c → Reach a c

abbrev pub is_set {ℓ} : {A : Type ℓ} → Option A → Bool
is_set none = false
is_set (some _) = true

-- The fields that a status goes with are filled.
pub record IsTraced (a : FraudAlert) : Type 0 where
  pub acknowledgement :
      (a.status ≡ acknowledged → is_set a.acknowledged_by ≡ true)
      × (a.status ≡ investigating → is_set a.acknowledged_by ≡ true)
  pub acknowledged_time : is_set a.acknowledged_by ≡ is_set a.acknowledged_at
  pub resolution :
      a.status ≡ resolved → (is_set a.resolved_by ≡ true) × (is_set a.resolution ≡ true)
  pub resolved_time : is_set a.resolved_by ≡ is_set a.resolved_at
  pub report : a.status ≡ reported_ncc → a.ncc_reported ≡ true
  pub report_id : a.ncc_reported ≡ is_set a.ncc_report_id

Step-IsTraced : {a b : FraudAlert} → Step a b → IsTraced a → IsTraced b
unfolding acknowledge start_investigation resolve report_to_ncc
Step-IsTraced (acknowledges user t e) h = ground arith
Step-IsTraced (investigates now e) h = ground arith
Step-IsTraced (resolves user r notes t e) h = ground arith
Step-IsTraced (reports report now e) h = ground arith

new_alert-IsTraced : (d : Detection) (b : Msisdn) → IsTraced (new_alert d b)
new_alert-IsTraced d b = ground arith

-- However a new alert is acknowledged, investigated, resolved and reported: an acknowledged or
-- investigated one names who acknowledged it, a resolved one who resolved it and how, a reported
-- one has a report, and each of these comes with its time or its identifier.
pub Reach-IsTraced :
    (d : Detection) (b : Msisdn) {a : FraudAlert} → Reach (new_alert d b) a → IsTraced a
Reach-IsTraced d b here = new_alert-IsTraced d b
Reach-IsTraced d b (next r s) = Step-IsTraced s (Reach-IsTraced d b r)

-- A resolved alert that is reported can be resolved again, by anyone and in any way: the guard
-- against it looks at the status, which the report has replaced, and the first resolution is lost.
pub report_to_ncc-reopens :
    (user : String) (r : ResolutionType) (notes : Option String) (t : Instants) (report : String)
    (now : ℕ) (a : FraudAlert)
    → a.status ≡ resolved
    → (b : FraudAlert) × (resolve user r notes t a ≡ err Error.already_resolved)
      × (resolve user r notes t (report_to_ncc report now a) ≡ ok b)
      × (b.status ≡ resolved)
      × (b.resolved_by ≡ some user)
      × (b.resolution ≡ some r)
      × (b.ncc_reported ≡ true)
unfolding resolve report_to_ncc
report_to_ncc-reopens user r notes t report now a h = (
  record a {
    ncc_reported = true;
    ncc_report_id = some report;
    status = resolved;
    resolved_by = some user;
    resolved_at = some t.now;
    resolution = some r;
    resolution_notes = notes;
    updated_at = t.later;
  },
  ground arith,
  ground arith,
  ground arith,
  ground arith,
  ground arith,
  ground arith,
)
