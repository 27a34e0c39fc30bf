-- ===== src/Domain/Call.antt =====
-- The entity `Call` (services/sip-processor/app/domain/entities/entities.py).
use vox_guard.Base.{ℕ, String, Bool, true, false, ◌&&◌, Option, none, some, if◌then◌else◌}
use vox_guard.Base.Int.{pos}
use vox_guard.Domain.Result.{Result, ok, err, already_flagged, terminal_status, ◌>>=◌}
use vox_guard.Domain.Msisdn.Defs.{Text, Msisdn, from_string, is_nigerian}
use vox_guard.Domain.Values.{
  FraudScore, make_score, ParsedIp, IpAddress, make_ip, is_likely_international,
}

pub data CallStatus : Type 0 where
  ringing active completed failed blocked : CallStatus

pub record Call : Type 0 where
  pub id : String
  pub a_number : Msisdn
  pub b_number : Msisdn
  pub source_ip : IpAddress
  pub timestamp : ℕ
  pub status : CallStatus
  pub switch_id : Option String
  pub raw_call_id : Option String
  pub is_flagged : Bool
  pub alert_id : Option String
  pub fraud_score : FraudScore
  pub created_at : ℕ
  pub updated_at : ℕ

unfoldable pub flag_as_fraud : String → FraudScore → ℕ → Call → Result Call
flag_as_fraud alert_id score now c =
    if c.is_flagged
    then err already_flagged
    else ok (record c {
      is_flagged = true;
      alert_id = some alert_id;
      fraud_score = score;
      updated_at = now;
    })

abbrev pub is_terminal : CallStatus → Bool
is_terminal completed = true
is_terminal failed = true
is_terminal blocked = true
is_terminal _ = false

unfoldable pub update_status : CallStatus → ℕ → Call → Result Call
update_status new_status now c =
    if is_terminal c.status
    then err terminal_status
    else ok (record c { status = new_status; updated_at = now })

unfoldable pub is_potential_cli_masking : Call → Bool
is_potential_cli_masking c = is_nigerian c.a_number && is_likely_international c.source_ip

abbrev pub is_ongoing : CallStatus → Bool
is_ongoing ringing = true
is_ongoing active = true
is_ongoing _ = false

unfoldable pub is_active : Call → Bool
is_active c = is_ongoing c.status

-- The clock at the three default values of a new call, and the identifier made for it.
pub record Creation : Type 0 where
  pub id : String
  pub timestamp : ℕ
  pub created_at : ℕ
  pub updated_at : ℕ

abbrev pub new_call : Creation → Msisdn → Msisdn → IpAddress → Call
new_call n a b ip = record {
  id = n.id;
  a_number = a;
  b_number = b;
  source_ip = ip;
  timestamp = n.timestamp;
  status = ringing;
  switch_id = none;
  raw_call_id = none;
  is_flagged = false;
  alert_id = none;
  fraud_score = make_score (pos 0);
  created_at = n.created_at;
  updated_at = n.updated_at;
}

-- `Call.create`
unfoldable pub create_call :
    (String → Option ParsedIp) → Creation → Text → Text → String → Result Call
create_call ip_address n a_number b_number source_ip = do
  a ← from_string a_number
  b ← from_string b_number
  ip ← make_ip ip_address source_ip
  ok (new_call n a b ip)
