-- ===== src/Domain/Alert/Defs.antt =====
-- The entity `FraudAlert` (services/sip-processor/app/domain/entities/entities.py).
use vox_guard.Base.{
  ℕ, suc, String, Bool, true, false, ◌&&◌, Option, none, some, List, [], ◌∷◌, leb, if◌then◌else◌,
  any,
}
use vox_guard.Base.Int.{ℤ}
use vox_guard.Domain.Result.{
  Result, ok, err, not_pending, not_acknowledged, already_resolved, ◌>>=◌,
}
use vox_guard.Domain.Msisdn.Defs.{Text, text_eq, Msisdn, from_string}
use vox_guard.Domain.Values.{FraudType, FraudScore, Severity, critical, make_score, severity}

pub data AlertStatus : Type 0 where
  pending acknowledged investigating resolved reported_ncc : AlertStatus

pub data ResolutionType : Type 0 where
  confirmed_fraud false_positive escalated whitelisted : ResolutionType

pub record FraudAlert : Type 0 where
  pub id : String
  pub b_number : Msisdn
  pub fraud_type : FraudType
  pub score : FraudScore
  pub severity : Severity
  pub a_numbers : List Text
  pub call_ids : List String
  pub source_ips : List String
  pub distinct_callers : ℕ
  pub status : AlertStatus
  pub acknowledged_by : Option String
  pub acknowledged_at : Option ℕ
  pub resolved_by : Option String
  pub resolved_at : Option ℕ
  pub resolution : Option ResolutionType
  pub resolution_notes : Option String
  pub ncc_reported : Bool
  pub ncc_report_id : Option String
  pub detected_at : ℕ
  pub updated_at : ℕ

-- The clock where a method reads it first, and where it reads it again.
pub record Instants : Type 0 where
  pub now : ℕ
  pub later : ℕ

abbrev pub is_pending : AlertStatus → Bool
is_pending pending = true
is_pending _ = false

abbrev pub is_acknowledged : AlertStatus → Bool
is_acknowledged acknowledged = true
is_acknowledged _ = false

abbrev pub is_resolved : AlertStatus → Bool
is_resolved resolved = true
is_resolved _ = false

unfoldable pub acknowledge : String → Instants → FraudAlert → Result FraudAlert
acknowledge user_id t a =
    if is_pending a.status
    then ok (record a {
      status = acknowledged;
      acknowledged_by = some user_id;
      acknowledged_at = some t.now;
      updated_at = t.later;
    })
    else err not_pending

unfoldable pub start_investigation : ℕ → FraudAlert → Result FraudAlert
start_investigation now a =
    if is_acknowledged a.status
    then ok (record a { status = investigating; updated_at = now })
    else err not_acknowledged

unfoldable pub resolve :
    String → ResolutionType → Option String → Instants → FraudAlert → Result FraudAlert
resolve user_id resolution notes t a =
    if is_resolved a.status
    then err already_resolved
    else ok (record a {
      status = resolved;
      resolved_by = some user_id;
      resolved_at = some t.now;
      resolution = some resolution;
      resolution_notes = notes;
      updated_at = t.later;
    })

unfoldable pub report_to_ncc : String → ℕ → FraudAlert → FraudAlert
report_to_ncc report_id now a = record a {
  ncc_reported = true;
  ncc_report_id = some report_id;
  status = reported_ncc;
  updated_at = now;
}

abbrev pub is_critical : Severity → Bool
is_critical critical = true
is_critical _ = false

unfoldable pub should_auto_escalate : FraudAlert → Bool
should_auto_escalate a = is_critical a.severity && leb 9500 a.score.value

-- `len(set(xs))`
unfoldable pub count_distinct : List Text → ℕ
count_distinct [] = 0
count_distinct (x ∷ xs) =
    let rest = count_distinct xs in if any (text_eq x) xs then rest else suc rest

-- What `FraudAlert.create` is given, and the identifier and the instants that it takes itself.
pub record Detection : Type 0 where
  pub id : String
  pub fraud_type : FraudType
  pub score : ℤ
  pub a_numbers : List Text
  pub call_ids : List String
  pub source_ips : List String
  pub instants : Instants

abbrev pub new_alert : Detection → Msisdn → FraudAlert
new_alert d b = record {
  id = d.id;
  b_number = b;
  fraud_type = d.fraud_type;
  score = make_score d.score;
  severity = severity (make_score d.score);
  a_numbers = d.a_numbers;
  call_ids = d.call_ids;
  source_ips = d.source_ips;
  distinct_callers = count_distinct d.a_numbers;
  status = pending;
  acknowledged_by = none;
  acknowledged_at = none;
  resolved_by = none;
  resolved_at = none;
  resolution = none;
  resolution_notes = none;
  ncc_reported = false;
  ncc_report_id = none;
  detected_at = d.instants.now;
  updated_at = d.instants.later;
}

-- `FraudAlert.create`
unfoldable pub create_alert : Text → Detection → Result FraudAlert
unfolding count_distinct
create_alert b_number d = do b ← from_string b_number; ok (new_alert d b)
