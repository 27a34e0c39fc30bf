-- ===== src/Domain/Alert/Examples.antt =====
-- An alert on its way, and a repository that is a dictionary.
use vox_guard.Base.{◌≡◌, refl, true, none, some, [], ◌∷◌}
use vox_guard.Base.Int.{pos}
use vox_guard.Base.Dict.{Dict, lookup, insert, lookup-insert}
use vox_guard.Domain.Result.{Error, ok, err}
use vox_guard.Domain.Msisdn.Defs.{Msisdn, codes}
use vox_guard.Domain.Values.{simbox}
use vox_guard.Domain.Alert.Defs.{
  FraudAlert, Instants, Detection, resolved, confirmed_fraud, false_positive, acknowledge, resolve,
  report_to_ncc, should_auto_escalate, new_alert,
}
use vox_guard.Domain.Alert.Workflow.{
  IsTraced, here, next, acknowledges, reports, Reach-IsTraced, report_to_ncc-reopens,
}
use vox_guard.Domain.Alert.Service.{AlertRepository}

abbrev instants : Instants
instants = record { now = 5; later = 6 }

abbrev number : Msisdn
number = record { value = codes "+2348031234567" }

abbrev detection : Detection
detection = record {
  id = "x";
  fraud_type = simbox;
  score = pos 9600;
  a_numbers = [];
  call_ids = [];
  source_ips = [];
  instants = instants;
}

abbrev alert : FraudAlert
alert = new_alert detection number

abbrev acked : FraudAlert
acked = record alert {
  status = vox_guard.Domain.Alert.Defs.AlertStatus.acknowledged;
  acknowledged_by = some "ann";
  acknowledged_at = some 5;
  updated_at = 6;
}

Reach-IsTraced_example : IsTraced (report_to_ncc "r" 9 acked)
Reach-IsTraced_example = Reach-IsTraced detection number {a = report_to_ncc "r" 9 acked} (
    next
      (next here (acknowledges {a = alert} {b = acked} "ann" instants (unfold acknowledge in refl)))
      (reports "r" 9 refl))

abbrev done : FraudAlert
done = record acked {
  status = resolved;
  resolved_by = some "ann";
  resolution = some confirmed_fraud;
}

report_to_ncc-reopens_example :
    (b : FraudAlert) × (resolve "bob" false_positive none instants done
      ≡ err Error.already_resolved)
    × (resolve "bob" false_positive none instants (report_to_ncc "r" 9 done) ≡ ok b)
    × (b.status ≡ resolved)
    × (b.resolved_by ≡ some "bob")
    × (b.resolution ≡ some false_positive)
    × (b.ncc_reported ≡ true)
report_to_ncc-reopens_example =
    report_to_ncc-reopens "bob" false_positive none instants "r" 9 done refl

abbrev dict_repository : AlertRepository (Dict FraudAlert)
dict_repository = record {
  save = λ a s. insert a.id a s;
  find_by_id = lookup;
  find_pending = λ s. [];
  count_pending = λ s. 0;
  find_by_id-save = λ a id s. lookup-insert a.id id a s;
}

abbrev alerts : Dict FraudAlert
alerts = ("x", alert) ∷ []
