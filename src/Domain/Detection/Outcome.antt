-- ===== src/Domain/Detection/Outcome.antt =====
-- What a registered call leads to
-- (services/sip-processor/app/domain/services/services.py).
use vox_guard.Base.{
  ℕ, ◌≡◌, refl, ◌-◌, String, true, false, Option, none, some, List, [], ◌∷◌, ◌++◌, map, leb, All,
  arith, ap,
}
use vox_guard.Base.Int.{pos}
use vox_guard.Domain.Result.{Result, ok, err, already_flagged, ◌>>=◌}
use vox_guard.Domain.Msisdn.Defs.{Text, Msisdn, from_string}
use vox_guard.Domain.Msisdn.Laws.{from_string-canonical}
use vox_guard.Domain.Values.{FraudScore, make_score, ParsedIp, IpAddress, make_ip}
use vox_guard.Domain.Call.{Call, Creation, new_call, create_call, flag_as_fraud}
use vox_guard.Domain.Alert.Defs.{FraudAlert, create_alert, new_alert}
use vox_guard.Domain.Detection.Ports.{Ports, fraud_detected}
use vox_guard.Domain.Detection.Service.{
  DetectionConfig, Service, Moment, distinct_texts, with_raw_id, confidence, fraud_type_of, Answer,
  flag_all, create_fraud_alert, note_call, detect, register_call, flag_and_conclude,
}

-- The call after it has been flagged.
abbrev pub flagged : String → FraudScore → ℕ → Call → Call
flagged alert_id score now c = record c {
  is_flagged = true;
  alert_id = some alert_id;
  fraud_score = score;
  updated_at = now;
}

created-b_number :
    (n : Creation) (a b : Result Msisdn) (ip : Result IpAddress) (c : Call)
    → (do x ← a; y ← b; z ← ip; ok (new_call n x y z)) ≡ ok c
    → b ≡ ok c.b_number
created-b_number n (err e) b ip c p = ground arith
created-b_number n (ok x) (err e) ip c p = ground arith
created-b_number n (ok x) (ok y) (err e) c p = ground arith
created-b_number n (ok x) (ok y) (ok z) c p = ground arith

with_raw_id-b_number : (id : Option String) (c : Call) → (with_raw_id id c).b_number ≡ c.b_number
unfolding with_raw_id
with_raw_id-b_number none c = refl
with_raw_id-b_number (some id) c = ground arith

-- The number that is called reads as itself.
create_call-b_number :
    (ip_address : String → Option ParsedIp) (n : Creation) (a b : Text) (ip : String)
    (id : Option String) (c : Call)
    → create_call ip_address n a b ip ≡ ok c
    → from_string (with_raw_id id c).b_number.value ≡ ok (with_raw_id id c).b_number
unfolding create_call
create_call-b_number ip_address n a b ip id c e =
    rw (with_raw_id-b_number id c)
      (from_string-canonical b c.b_number
        (created-b_number n (from_string a) (from_string b) (make_ip ip_address ip) c e)).2

flag_as_fraud-flagged :
    (alert_id : String) (score : FraudScore) (now : ℕ) (c : Call)
    → c.is_flagged ≡ false
    → flag_as_fraud alert_id score now c ≡ ok (flagged alert_id score now c)
unfolding flag_as_fraud
flag_as_fraud-flagged alert_id score now c h = ground arith

flag_as_fraud-already :
    (alert_id : String) (score : FraudScore) (now : ℕ) (c : Call)
    → c.is_flagged ≡ true
    → flag_as_fraud alert_id score now c ≡ err already_flagged
unfolding flag_as_fraud
flag_as_fraud-already alert_id score now c h = ground arith

abbrev pub AreUnflagged : List Call → Type 0
AreUnflagged = All (λ (c : Call). c.is_flagged ≡ false)

module _ {S : Type 0} (ports : Ports S) (config : DetectionConfig) where
  abbrev pub save_all : List Call → S → S
  save_all [] s = s
  save_all (c ∷ cs) s = save_all cs (ports.save_call c s)

  flag_all-unflagged :
      (alert_id : String) (score : FraudScore) (now : ℕ) (cs : List Call) (s : Service S)
      → AreUnflagged cs
      → flag_all ports config alert_id score now cs s
        ≡ (ok tt, record s { store = save_all (map (flagged alert_id score now) cs) s.store })
  unfolding flag_all
  flag_all-unflagged alert_id score now [] s h = refl
  flag_all-unflagged alert_id score now (c ∷ cs) s h =
      rw (flag_as_fraud-flagged alert_id score now c h.0) (
        flag_all-unflagged alert_id score now cs
          (record s { store = ports.save_call (flagged alert_id score now c) s.store }) h.1)

  flag_all_stops :
      (alert_id : String) (score : FraudScore) (now : ℕ) (cs : List Call) (c : Call)
      (ds : List Call) (s : Service S)
      → AreUnflagged cs
      → c.is_flagged ≡ true
      → flag_all ports config alert_id score now (cs ++ c ∷ ds) s ≡ (
        err already_flagged,
        record s { store = save_all (map (flagged alert_id score now) cs) s.store },
      )
  unfolding flag_all
  flag_all_stops alert_id score now [] c ds s h e =
      rw (flag_as_fraud-already alert_id score now c e) refl
  flag_all_stops alert_id score now (b ∷ cs) c ds s h e =
      rw (flag_as_fraud-flagged alert_id score now b h.0) (
        flag_all_stops alert_id score now cs c ds
          (record s { store = ports.save_call (flagged alert_id score now b) s.store }) h.1 e)

  -- One call of `register_call` whose texts have been read.
  module _ (ip_address : String → Option ParsedIp) (t : Moment) (a_number b_number : Text)
      (source_ip : String) (call_id : Option String) (s : Service S) (c : Call) where
    abbrev pub registered : Call
    registered = with_raw_id call_id c

    abbrev pub noted : Service S
    noted = note_call ports config registered a_number b_number source_ip s

    abbrev pub callers : ℕ
    callers = ports.get_distinct_caller_count registered.b_number.value noted.store

    abbrev pub found : List Call
    found = ports.find_calls_in_window registered.b_number (t.now - config.window) t.now noted.store

    abbrev pub new_entry : FraudAlert
    new_entry =
        new_alert
          (record {
            id = t.alert_id;
            fraud_type = fraud_type_of registered;
            score = pos (confidence callers);
            a_numbers = ports.get_distinct_callers registered.b_number.value noted.store;
            call_ids = map (λ (d : Call). d.id) found;
            source_ips = distinct_texts (map (λ (d : Call). d.source_ip.value) found);
            instants = t.alert_instants;
          })
          registered.b_number

    abbrev pub flag : Call → Call
    flag = flagged t.alert_id (make_score (pos (confidence callers))) t.flagged_at

    abbrev pub registration : Answer ports config (Call × Option FraudAlert)
    registration = register_call ports config ip_address t a_number b_number source_ip call_id s

    -- Fewer callers than the threshold: the call is noted and no more.
    pub register_call_quiet :
        create_call ip_address t.creation a_number b_number source_ip ≡ ok c
        → leb config.threshold callers ≡ false
        → registration ≡ (ok (registered, none), noted)
    unfolding register_call detect
    register_call_quiet e h = rw (e, h) refl

    create_fraud_alert-reads :
        create_call ip_address t.creation a_number b_number source_ip ≡ ok c
        → create_fraud_alert ports config t registered callers noted
          ≡ flag_and_conclude ports config t registered callers found (ok new_entry) noted
    unfolding create_fraud_alert create_alert
    create_fraud_alert-reads e =
        rw (create_call-b_number ip_address t.creation a_number b_number source_ip call_id c e) refl

    -- Once the threshold is reached and no call that is found has been flagged before, the alert is
    -- returned, for the number that was called; all the calls found are flagged with it and saved,
    -- the alert is saved, the window is cleared, and both events wait to be sent.
    pub register_call_alerts :
        create_call ip_address t.creation a_number b_number source_ip ≡ ok c
        → leb config.threshold callers ≡ true
        → AreUnflagged found
        → registration ≡ (
          ok (registered, some new_entry),
          record {
            store = ports.clear_window registered.b_number.value (
                ports.ingest_alert new_entry
                  (ports.save_alert new_entry (save_all (map flag found) noted.store)));
            pending_events =
                noted.pending_events
                ++ fraud_detected t.alert_id registered.b_number.value
                    (fraud_type_of registered)
                    callers
                    (confidence callers)
                  ∷ [];
          },
        )
    unfolding register_call detect
    register_call_alerts e h unflagged =
        rw
          (
            e,
            h,
            create_fraud_alert-reads e,
            flag_all-unflagged t.alert_id (make_score (pos (confidence callers))) t.flagged_at found
                noted unflagged,
          )
          refl

    -- If a call that is found has been flagged before, as by an alert of the same window, the
    -- registration fails although the threshold is reached: no alert is saved, the window is not
    -- cleared, no fraud event waits to be sent, and the calls found before that one are flagged
    -- with an alert that does not exist.
    pub register_call-already_flagged :
        (before : List Call) (d : Call) (after : List Call)
        → create_call ip_address t.creation a_number b_number source_ip ≡ ok c
        → leb config.threshold callers ≡ true
        → found ≡ before ++ d ∷ after
        → AreUnflagged before
        → d.is_flagged ≡ true
        → registration
          ≡ (err already_flagged, record noted { store = save_all (map flag before) noted.store })
    unfolding register_call detect
    register_call-already_flagged before d after e h split unflagged is_flagged =
        rw
          (
            e,
            h,
            create_fraud_alert-reads e,
            ap
                (λ cs.
                  flag_all ports config t.alert_id (make_score (pos (confidence callers)))
                    t.flagged_at cs noted)
                split,
            flag_all_stops t.alert_id (make_score (pos (confidence callers))) t.flagged_at before d
                after noted unflagged is_flagged,
          )
          refl
