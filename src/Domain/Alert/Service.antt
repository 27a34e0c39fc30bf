-- ===== src/Domain/Alert/Service.antt =====
-- `AlertService` (services/sip-processor/app/domain/services/services.py), over the interface
-- `AlertRepository` (services/sip-processor/app/domain/repositories/repositories.py).
use vox_guard.Base.{ℕ, ◌≡◌, String, Option, none, some, List, arith, str_eq, if◌then◌else◌, refl}
use vox_guard.Domain.Result.{Result, ok, err, alert_not_found, unknown_resolution}
use vox_guard.Domain.Alert.Defs.{
  ResolutionType, confirmed_fraud, false_positive, escalated, whitelisted, FraudAlert, Instants,
  acknowledge, resolve,
}

-- The repository: what is saved under an identifier is found there.
pub record AlertRepository (S : Type 0) : Type 0 where
  pub save : FraudAlert → S → S
  pub find_by_id : String → S → Option FraudAlert
  pub find_pending : S → List FraudAlert
  pub count_pending : S → ℕ
  pub find_by_id-save :
      (a : FraudAlert) (id : String) (s : S)
      → find_by_id id (save a s) ≡ (if str_eq a.id id then some a else find_by_id id s)

-- `ResolutionType(resolution)`
unfoldable pub parse_resolution : String → Result ResolutionType
parse_resolution text =
    if str_eq text "confirmed_fraud"
    then ok confirmed_fraud
    else if str_eq text "false_positive"
    then ok false_positive
    else if str_eq text "escalated"
    then ok escalated
    else if str_eq text "whitelisted"
    then ok whitelisted
    else err unknown_resolution

module _ {S : Type 0} (repo : AlertRepository S) where
  abbrev pub save_result : Result FraudAlert → S → Result FraudAlert × S
  save_result (err e) s = (err e, s)
  save_result (ok a) s = (ok a, repo.save a s)

  abbrev pub acknowledge_found : Option FraudAlert → String → Instants → S → Result FraudAlert × S
  acknowledge_found none user t s = (err alert_not_found, s)
  acknowledge_found (some a) user t s = save_result (acknowledge user t a) s

  unfoldable pub acknowledge_alert : String → String → Instants → S → Result FraudAlert × S
  acknowledge_alert alert_id user_id t s =
      acknowledge_found (repo.find_by_id alert_id s) user_id t s

  abbrev pub resolve_parsed :
      Result ResolutionType
      → FraudAlert
      → String
      → Option String
      → Instants
      → S
      → Result FraudAlert × S
  resolve_parsed (err e) a user notes t s = (err e, s)
  resolve_parsed (ok r) a user notes t s = save_result (resolve user r notes t a) s

  abbrev pub resolve_found :
      Option FraudAlert → String → String → Option String → Instants → S → Result FraudAlert × S
  resolve_found none user text notes t s = (err alert_not_found, s)
  resolve_found (some a) user text notes t s =
      resolve_parsed (parse_resolution text) a user notes t s

  unfoldable pub resolve_alert :
      String → String → String → Option String → Instants → S → Result FraudAlert × S
  resolve_alert alert_id user_id resolution notes t s =
      resolve_found (repo.find_by_id alert_id s) user_id resolution notes t s

  unfoldable pub get_pending_alerts : S → List FraudAlert
  get_pending_alerts s = repo.find_pending s

  unfoldable pub get_pending_count : S → ℕ
  get_pending_count s = repo.count_pending s

  -- What a call on one alert has done: on an error the repository is as it was; otherwise the
  -- alert returned is what the repository has from then on, and no other alert has changed.
  abbrev pub Commits : String → S → Result FraudAlert × S → Type 0
  Commits alert_id s (err e, t) = t ≡ s
  Commits alert_id s (ok a, t) =
      (j : String)
      → repo.find_by_id j t ≡ (if str_eq alert_id j then some a else repo.find_by_id j s)

  save_result-Commits :
      (r : Result FraudAlert) (s : S) (alert_id : String)
      → ((a : FraudAlert) → r ≡ ok a → a.id ≡ alert_id)
      → Commits alert_id s (save_result r s)
  save_result-Commits (err e) s alert_id h = refl
  save_result-Commits (ok a) s alert_id h = λ j. rw (← h a refl) (repo.find_by_id-save a j s)

  acknowledge-id :
      (user : String) (t : Instants) (a b : FraudAlert) → acknowledge user t a ≡ ok b → b.id ≡ a.id
  unfolding acknowledge
  acknowledge-id user t a b e = ground arith

  resolve-id :
      (user : String) (r : ResolutionType) (notes : Option String) (t : Instants) (a b : FraudAlert)
      → resolve user r notes t a ≡ ok b
      → b.id ≡ a.id
  unfolding resolve
  resolve-id user r notes t a b e = ground arith

  -- A repository stores each alert under the alert's own identifier.
  abbrev pub IsKeyed : S → Type 0
  IsKeyed s = (id : String) (a : FraudAlert) → repo.find_by_id id s ≡ some a → a.id ≡ id

  acknowledge_found-Commits :
      (o : Option FraudAlert) (alert_id user : String) (t : Instants) (s : S)
      → ((a : FraudAlert) → o ≡ some a → a.id ≡ alert_id)
      → Commits alert_id s (acknowledge_found o user t s)
  acknowledge_found-Commits none alert_id user t s h = refl
  acknowledge_found-Commits (some a) alert_id user t s h =
      save_result-Commits (acknowledge user t a) s alert_id
        (λ b e. ground (arith, acknowledge-id user t a b e, h a refl))

  -- Acknowledging an alert through the service either fails and changes nothing, or replaces that
  -- alert in the repository by the one returned and no other.
  pub acknowledge_alert-Commits :
      (alert_id user : String) (t : Instants) (s : S)
      → IsKeyed s
      → Commits alert_id s (acknowledge_alert alert_id user t s)
  unfolding acknowledge_alert
  acknowledge_alert-Commits alert_id user t s h =
      acknowledge_found-Commits (repo.find_by_id alert_id s) alert_id user t s (h alert_id)

  resolve_parsed-Commits :
      (r : Result ResolutionType) (a : FraudAlert) (user : String) (notes : Option String)
      (t : Instants) (s : S)
      → Commits a.id s (resolve_parsed r a user notes t s)
  resolve_parsed-Commits (err e) a user notes t s = refl
  resolve_parsed-Commits (ok r) a user notes t s =
      save_result-Commits (resolve user r notes t a) s a.id (resolve-id user r notes t a)

  resolve_found-Commits :
      (o : Option FraudAlert) (alert_id user text : String) (notes : Option String) (t : Instants)
      (s : S)
      → ((a : FraudAlert) → o ≡ some a → a.id ≡ alert_id)
      → Commits alert_id s (resolve_found o user text notes t s)
  resolve_found-Commits none alert_id user text notes t s h = refl
  resolve_found-Commits (some a) alert_id user text notes t s h =
      rw (← h a refl) (resolve_parsed-Commits (parse_resolution text) a user notes t s)

  -- Resolving an alert through the service either fails, as for a resolution that is not known, and
  -- changes nothing, or replaces that alert in the repository by the one returned and no other.
  pub resolve_alert-Commits :
      (alert_id user text : String) (notes : Option String) (t : Instants) (s : S)
      → IsKeyed s
      → Commits alert_id s (resolve_alert alert_id user text notes t s)
  unfolding resolve_alert
  resolve_alert-Commits alert_id user text notes t s h =
      resolve_found-Commits (repo.find_by_id alert_id s) alert_id user text notes t s (h alert_id)
