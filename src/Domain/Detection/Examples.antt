-- ===== src/Domain/Detection/Examples.antt =====
-- Two calls to one number within the window, with a store that is lists.
use vox_guard.Base.{
  ℕ, ◌≡◌, refl, ◌&&◌, String, true, Option, none, some, List, [], ◌∷◌, leb, str_eq, if◌then◌else◌,
}
use vox_guard.Domain.Result.{ok, err, already_flagged}
use vox_guard.Domain.Msisdn.Defs.{
  Text, text_eq, codes, Msisdn, from_string, make_msisdn, normalize, is_space,
}
use vox_guard.Domain.Values.{ParsedIp, make_ip, make_score, simbox, is_likely_international}
use vox_guard.Domain.Call.{Call, Creation, new_call, create_call}
use vox_guard.Domain.Alert.Defs.{FraudAlert, count_distinct}
use vox_guard.Domain.Detection.Ports.{Ports, call_registered, fraud_detected}
use vox_guard.Domain.Detection.Service.{
  DetectionConfig, Service, Moment, note_call, with_raw_id, fraud_type_of, confidence,
}
use vox_guard.Domain.Detection.Outcome.{
  flagged, new_entry, registration, register_call_alerts, register_call-already_flagged,
}

record Store : Type 0 where
  callers : List (Text × Text)
  calls : List Call
  alerts : List FraudAlert

abbrev callers_of : Text → List (Text × Text) → List Text
callers_of b [] = []
callers_of b (e ∷ es) = let rest = callers_of b es in if text_eq e.0 b then e.1 ∷ rest else rest

abbrev without : Text → List (Text × Text) → List (Text × Text)
without b [] = []
without b (e ∷ es) = let rest = without b es in if text_eq e.0 b then rest else e ∷ rest

abbrev put_call : Call → List Call → List Call
put_call c [] = c ∷ []
put_call c (d ∷ ds) = let rest = put_call c ds in if str_eq c.id d.id then c ∷ ds else d ∷ rest

abbrev calls_to : Msisdn → ℕ → ℕ → List Call → List Call
calls_to b start end [] = []
calls_to b start end (c ∷ cs) =
    let rest = calls_to b start end cs in
    if text_eq c.b_number.value b.value && (leb start c.timestamp && leb c.timestamp end)
    then c ∷ rest
    else rest

abbrev ports : Ports Store
ports = record {
  add_caller_to_window = λ b a id ip w s. record s { callers = (b, a) ∷ s.callers };
  get_distinct_caller_count = λ b s. count_distinct (callers_of b s.callers);
  get_distinct_callers = λ b s. callers_of b s.callers;
  clear_window = λ b s. record s { callers = without b s.callers };
  save_call = λ c s. record s { calls = put_call c s.calls };
  find_calls_in_window = λ b start end s. calls_to b start end s.calls;
  save_alert = λ a s. record s { alerts = a ∷ s.alerts };
  ingest_call = λ c s. s;
  ingest_alert = λ a s. s;
}

abbrev config : DetectionConfig
config = record { window = 5; threshold = 2 }

abbrev ip_address : String → Option ParsedIp
ip_address text = some (record { is_ipv4 = true; is_private = true })

abbrev victim : Text
victim = codes "08031234567"

abbrev caller : Text
caller = codes "+2348050000002"

abbrev creation : Creation
creation = record { id = "c2"; timestamp = 10; created_at = 10; updated_at = 10 }

abbrev moment : Moment
moment = record {
  creation = creation;
  now = 11;
  alert_id = "x";
  alert_instants = record { now = 11; later = 11 };
  flagged_at = 12;
}

abbrev e164 : String → Msisdn
e164 digits = record { value = codes digits }

abbrev first_call : Call
first_call =
    new_call (record creation { id = "c1"; timestamp = 8 }) (e164 "+2348050000001")
      (e164 "+2348031234567")
      (record { value = "10.0.0.1"; parsed = record { is_ipv4 = true; is_private = true } })

abbrev second_call : Call
second_call =
    new_call creation (e164 "+2348050000002") (e164 "+2348031234567")
      (record { value = "10.0.0.1"; parsed = record { is_ipv4 = true; is_private = true } })

-- Before the second call.
abbrev before : Service Store
before = record {
  store = record {
    callers = (codes "+2348031234567", codes "+2348050000001") ∷ [];
    calls = first_call ∷ [];
    alerts = [];
  };
  pending_events = [];
}

created : create_call ip_address creation caller victim "10.0.0.1" ≡ ok second_call
unfolding create_call from_string make_msisdn normalize is_space make_ip
created = refl

register_call_alerts_example :
    registration ports config ip_address moment caller victim "10.0.0.1" none before second_call ≡ (
      ok (
        second_call,
        some (
            new_entry ports config ip_address moment caller victim "10.0.0.1" none before
              second_call),
      ),
      record {
        store = record {
          callers = [];
          calls =
              flagged "x" (record { value = 2000 }) 12 first_call
              ∷ flagged "x" (record { value = 2000 }) 12 second_call
              ∷ [];
          alerts =
              new_entry ports config ip_address moment caller victim "10.0.0.1" none before
                second_call
              ∷ [];
        };
        pending_events =
            call_registered "c2" caller victim "10.0.0.1"
            ∷ fraud_detected "x" (codes "+2348031234567") simbox 2 2000
            ∷ [];
      },
    )
unfolding note_call with_raw_id count_distinct make_score fraud_type_of confidence
    is_likely_international
register_call_alerts_example =
    register_call_alerts ports config ip_address moment caller victim "10.0.0.1" none before
      second_call created refl (refl, (refl, tt))

-- The first call has been flagged two seconds before, and one more caller has come since.
abbrev flagged_before : Service Store
flagged_before = record before {
  store = record before.store { calls = flagged "w" (record { value = 2000 }) 9 first_call ∷ [] };
}

register_call-already_flagged_example :
    registration ports config ip_address moment caller victim "10.0.0.1" none flagged_before
      second_call
    ≡ (
      err already_flagged,
      record {
        store = record {
          callers =
              (codes "+2348031234567", codes "+2348050000002")
              ∷ (codes "+2348031234567", codes "+2348050000001")
              ∷ [];
          calls = flagged "w" (record { value = 2000 }) 9 first_call ∷ second_call ∷ [];
          alerts = [];
        };
        pending_events = call_registered "c2" caller victim "10.0.0.1" ∷ [];
      },
    )
unfolding note_call with_raw_id count_distinct
register_call-already_flagged_example =
    register_call-already_flagged ports config ip_address moment caller victim "10.0.0.1" none
      flagged_before second_call [] (flagged "w" (record { value = 2000 }) 9 first_call)
      (second_call ∷ []) created refl refl tt refl
