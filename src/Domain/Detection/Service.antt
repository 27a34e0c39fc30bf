-- ===== src/Domain/Detection/Service.antt =====
-- `DetectionService` (services/sip-processor/app/domain/services/services.py).
use vox_guard.Base.{
  ℕ, ◌-◌, ◌*◌, String, Option, none, some, List, [], ◌∷◌, ◌++◌, map, leb, min, if◌then◌else◌,
  str_eq, any,
}
use vox_guard.Base.Int.{pos}
use vox_guard.Domain.Result.{Result, ok, err, ◌>>=◌}
use vox_guard.Domain.Msisdn.Defs.{Text}
use vox_guard.Domain.Values.{
  FraudType, cli_masking, simbox, FraudScore, make_score, ParsedIp, is_likely_international,
  make_window, make_threshold,
}
use vox_guard.Domain.Call.{Call, Creation, create_call, flag_as_fraud}
use vox_guard.Domain.Alert.Defs.{FraudAlert, Instants, create_alert}
use vox_guard.Domain.Detection.Ports.{Ports, DomainEvent, call_registered, fraud_detected}

pub record DetectionConfig : Type 0 where
  pub window : ℕ
  pub threshold : ℕ

-- `__init__`: the two values are checked.
unfoldable pub make_detection_config : ℕ → ℕ → Result DetectionConfig
make_detection_config window_seconds threshold = do
  w ← make_window window_seconds
  n ← make_threshold threshold
  ok (record { window = w; threshold = n })

-- The service's own state, and the store behind the interfaces.
pub record Service (S : Type 0) : Type 0 where
  pub store : S
  pub pending_events : List DomainEvent

-- The clock and the identifiers at the places where one call of `register_call` takes them; times
-- are in seconds.
pub record Moment : Type 0 where
  pub creation : Creation
  pub now : ℕ
  pub alert_id : String
  pub alert_instants : Instants
  pub flagged_at : ℕ

-- `list(set(xs))`, in the order of the last occurrences: Python leaves the order open.
unfoldable pub distinct_texts : List String → List String
distinct_texts [] = []
distinct_texts (x ∷ xs) =
    let rest = distinct_texts xs in if any (str_eq x) xs then rest else x ∷ rest

-- `if call_id: call.raw_call_id = call_id`
unfoldable pub with_raw_id : Option String → Call → Call
with_raw_id none c = c
with_raw_id (some id) c = if str_eq id "" then c else record c { raw_call_id = some id }

unfoldable pub confidence : ℕ → ℕ
confidence distinct_count = min 10000 (distinct_count * 1000)

unfoldable pub fraud_type_of : Call → FraudType
fraud_type_of c = if is_likely_international c.source_ip then cli_masking else simbox

module _ {S : Type 0} (ports : Ports S) (config : DetectionConfig) where
  -- A call that raises leaves the service as it is by then.
  abbrev pub Answer : Type 0 → Type 0
  Answer A = Result A × Service S

  abbrev pub save_flagged : Result Call → Service S → Answer (Unit {0})
  save_flagged (err e) s = (err e, s)
  save_flagged (ok c) s = (ok tt, record s { store = ports.save_call c s.store })

  abbrev pub and_then : Answer (Unit {0}) → (Service S → Answer (Unit {0})) → Answer (Unit {0})
  and_then (err e, s) k = (err e, s)
  and_then (ok _, s) k = k s

  -- The loop that flags the calls of the window.
  unfoldable pub flag_all : String → FraudScore → ℕ → List Call → Service S → Answer (Unit {0})
  flag_all alert_id score now [] s = (ok tt, s)
  flag_all alert_id score now (c ∷ cs) s =
      and_then (save_flagged (flag_as_fraud alert_id score now c) s)
        (flag_all alert_id score now cs)

  -- From the alert's saving to the event.
  abbrev pub conclude : Call → FraudAlert → ℕ → Answer (Unit {0}) → Answer FraudAlert
  conclude call alert distinct_count (err e, s) = (err e, s)
  conclude call alert distinct_count (ok _, s) = (
    ok alert,
    record {
      store =
          ports.clear_window call.b_number.value
            (ports.ingest_alert alert (ports.save_alert alert s.store));
      pending_events =
          s.pending_events
          ++ fraud_detected alert.id alert.b_number.value alert.fraud_type distinct_count
              (confidence distinct_count)
            ∷ [];
    },
  )

  abbrev pub flag_and_conclude :
      Moment → Call → ℕ → List Call → Result FraudAlert → Service S → Answer FraudAlert
  flag_and_conclude t call distinct_count calls (err e) s = (err e, s)
  flag_and_conclude t call distinct_count calls (ok alert) s =
      conclude call alert distinct_count
        (flag_all alert.id (make_score (pos (confidence distinct_count))) t.flagged_at calls s)

  unfoldable pub create_fraud_alert : Moment → Call → ℕ → Service S → Answer FraudAlert
  create_fraud_alert t call distinct_count s =
      let callers = ports.get_distinct_callers call.b_number.value s.store in
      let calls = ports.find_calls_in_window call.b_number (t.now - config.window) t.now s.store in
      flag_and_conclude t call distinct_count calls
        (create_alert call.b_number.value (record {
          id = t.alert_id;
          fraud_type = fraud_type_of call;
          score = pos (confidence distinct_count);
          a_numbers = callers;
          call_ids = map (λ (c : Call). c.id) calls;
          source_ips = distinct_texts (map (λ (c : Call). c.source_ip.value) calls);
          instants = t.alert_instants;
        }))
        s

  -- The event, the cache, the repository and the time-series store are told of the call.
  unfoldable pub note_call : Call → Text → Text → String → Service S → Service S
  note_call call a_number b_number source_ip s = record {
    store = ports.ingest_call call (
        ports.save_call call (
          ports.add_caller_to_window call.b_number.value call.a_number.value call.id source_ip
            config.window s.store));
    pending_events = s.pending_events ++ call_registered call.id a_number b_number source_ip ∷ [];
  }

  abbrev pub with_alert : Call → Answer FraudAlert → Answer (Call × Option FraudAlert)
  with_alert call (err e, s) = (err e, s)
  with_alert call (ok alert, s) = (ok (call, some alert), s)

  unfoldable pub detect : Moment → Call → Service S → Answer (Call × Option FraudAlert)
  detect t call s =
      let distinct_count = ports.get_distinct_caller_count call.b_number.value s.store in
      if leb config.threshold distinct_count
      then with_alert call (create_fraud_alert t call distinct_count s)
      else (ok (call, none), s)

  abbrev pub register_created :
      Moment
      → Result Call
      → Text
      → Text
      → String
      → Option String
      → Service S
      → Answer (Call × Option FraudAlert)
  register_created t (err e) a_number b_number source_ip call_id s = (err e, s)
  register_created t (ok c) a_number b_number source_ip call_id s =
      let call = with_raw_id call_id c in
      detect t call (note_call call a_number b_number source_ip s)

  unfoldable pub register_call :
      (String → Option ParsedIp)
      → Moment
      → Text
      → Text
      → String
      → Option String
      → Service S
      → Answer (Call × Option FraudAlert)
  register_call ip_address t a_number b_number source_ip call_id s =
      register_created t (create_call ip_address t.creation a_number b_number source_ip) a_number
        b_number source_ip call_id s

-- The events, and the service without them.
unfoldable pub get_pending_events : {S : Type 0} → Service S → List DomainEvent × Service S
get_pending_events s = (s.pending_events, record s { pending_events = [] })
