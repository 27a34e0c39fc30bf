-- ===== src/Cdr/Processor.antt =====
-- `CDRRecord` and `CDRProcessor` (services/sip-processor/app/cdr/models.py and processor.py). What
-- the processor asks of Redis and of PostgreSQL is listed in its order; a connection that fails,
-- which ends the method with an exception, is not modelled.
use vox_guard.Base.{
  ℕ, String, Bool, true, false, Option, none, some, List, [], ◌∷◌, ◌++◌, if◌then◌else◌, length,
}
use vox_guard.Base.Int.{ℤ, pos, sub_ℕ}
use vox_guard.Base.Dict.{Dict, lookup, insert, erase}

pub data CallState : Type 0 where
  attempting ringing answered completed failed busy no_answer cancelled : CallState

pub record CdrRecord : Type 0 where
  pub call_id : String
  pub a_number : String
  pub b_number : String
  pub start_time : ℕ
  pub answer_time : Option ℕ
  pub end_time : Option ℕ
  pub state : CallState
  pub cli : Option String
  pub p_asserted_identity : Option String
  pub has_cli_mismatch : Bool
  pub source_ip : Option String
  pub via_headers : List String

abbrev pub between : Option ℕ → Option ℕ → ℤ
between (some start) (some end) = sub_ℕ end start
between _ _ = pos 0

unfoldable pub duration_seconds : CdrRecord → ℤ
duration_seconds c = between c.answer_time c.end_time

unfoldable pub setup_time_seconds : CdrRecord → ℤ
setup_time_seconds c = between (some c.start_time) c.answer_time

abbrev pub was_answered : CallState → Bool
was_answered answered = true
was_answered completed = true
was_answered _ = false

unfoldable pub is_answered : CdrRecord → Bool
is_answered c = was_answered c.state

-- What the processor reads of `SIPHeaderInfo`.
pub record HeaderInfo : Type 0 where
  pub call_id : String
  pub a_number : String
  pub b_number : String
  pub cli : Option String
  pub p_asserted_identity : Option String
  pub has_cli_mismatch : Bool
  pub via : List String

-- The calls of the metrics calculator and of the database.
pub data Request : Type 0 where
  record_attempt : String → String → Request
  record_answer : String → Request
  record_duration : String → ℤ → Request
  log_cdr : CdrRecord → Request

pub record CdrProcessor : Type 0 where
  pub has_postgres : Bool
  pub active_calls : Dict CdrRecord
  pub requests : List Request

abbrev pub ask : List Request → CdrProcessor → CdrProcessor
ask rs p = record p { requests = p.requests ++ rs }

abbrev pub new_record : HeaderInfo → ℕ → CdrRecord
new_record h now = record {
  call_id = h.call_id;
  a_number = h.a_number;
  b_number = h.b_number;
  start_time = now;
  answer_time = none;
  end_time = none;
  state = attempting;
  cli = h.cli;
  p_asserted_identity = h.p_asserted_identity;
  has_cli_mismatch = h.has_cli_mismatch;
  source_ip = none;
  via_headers = h.via;
}

unfoldable pub process_invite : HeaderInfo → ℕ → CdrProcessor → CdrRecord × CdrProcessor
process_invite h now p =
    let c = new_record h now in
    (
      c,
      ask (record_attempt c.b_number c.a_number ∷ [])
          (record p { active_calls = insert c.call_id c p.active_calls }),
    )

abbrev pub answer_found :
    Option CdrRecord → String → ℕ → CdrProcessor → Option CdrRecord × CdrProcessor
answer_found none call_id now p = (none, p)
answer_found (some c) call_id now p =
    let d : CdrRecord = record c { state = answered; answer_time = some now } in
    (
      some d,
      ask (record_answer d.b_number ∷ [])
          (record p { active_calls = insert call_id d p.active_calls }),
    )

unfoldable pub process_answer : String → ℕ → CdrProcessor → Option CdrRecord × CdrProcessor
process_answer call_id now p = answer_found (lookup call_id p.active_calls) call_id now p

abbrev pub log_to_postgres : CdrRecord → Bool → List Request
log_to_postgres c true = log_cdr c ∷ []
log_to_postgres c false = []

-- The state is set before the test whether the call was answered.
abbrev pub bye_found :
    Option CdrRecord → String → ℕ → CdrProcessor → Option CdrRecord × CdrProcessor
bye_found none call_id now p = (none, p)
bye_found (some c) call_id now p =
    let d : CdrRecord = record c { state = completed; end_time = some now } in
    let durations : List Request =
      if is_answered d then record_duration d.b_number (duration_seconds d) ∷ [] else [] in
    (
      some d,
      ask (durations ++ log_to_postgres d p.has_postgres)
          (record p { active_calls = erase call_id p.active_calls }),
    )

unfoldable pub process_bye : String → ℕ → CdrProcessor → Option CdrRecord × CdrProcessor
process_bye call_id now p = bye_found (lookup call_id p.active_calls) call_id now p

abbrev pub failure_found :
    Option CdrRecord → String → CallState → ℕ → CdrProcessor → Option CdrRecord × CdrProcessor
failure_found none call_id state now p = (none, p)
failure_found (some c) call_id state now p =
    let d : CdrRecord = record c { state = state; end_time = some now } in
    (
      some d,
      ask (log_to_postgres d p.has_postgres)
          (record p { active_calls = erase call_id p.active_calls }),
    )

unfoldable pub process_failure :
    String → CallState → ℕ → CdrProcessor → Option CdrRecord × CdrProcessor
process_failure call_id state now p =
    failure_found (lookup call_id p.active_calls) call_id state now p

unfoldable pub get_active_call : String → CdrProcessor → Option CdrRecord
get_active_call call_id p = lookup call_id p.active_calls

unfoldable pub active_call_count : CdrProcessor → ℕ
active_call_count p = length p.active_calls
