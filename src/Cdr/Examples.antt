-- ===== src/Cdr/Examples.antt =====
-- One call that is given up before it is answered.
use vox_guard.Base.{ℕ, ◌≡◌, refl, true, false, none, some, List, [], ◌∷◌}
use vox_guard.Base.Int.{pos}
use vox_guard.Cdr.Processor.{
  HeaderInfo, CdrProcessor, completed, record_attempt, record_duration, log_cdr, process_invite,
  process_bye, new_record,
}
use vox_guard.Cdr.Lifecycle.{
  Event, invite, answer, AreLive, handle_all, handle_all-AreLive, process_bye-unanswered,
}

abbrev header : HeaderInfo
header = record {
  call_id = "a";
  a_number = "+2348050000001";
  b_number = "+2348031234567";
  cli = none;
  p_asserted_identity = none;
  has_cli_mismatch = false;
  via = [];
}

abbrev idle : CdrProcessor
idle = record { has_postgres = true; active_calls = []; requests = [] }

abbrev events : List (Event × ℕ)
events = (invite header, 5) ∷ []

handle_all-AreLive_example : AreLive (handle_all ((invite header, 5) ∷ (answer "a", 7) ∷ []) idle)
handle_all-AreLive_example = handle_all-AreLive ((invite header, 5) ∷ (answer "a", 7) ∷ []) idle tt

process_bye-unanswered_example :
    (process_bye "a" 9 (handle_all events idle)).1.requests
    ≡ record_attempt "+2348031234567" "+2348050000001"
      ∷ record_duration "+2348031234567" (pos 0)
      ∷ log_cdr (record (new_record header 5) { state = completed; end_time = some 9 })
      ∷ []
unfolding process_invite
process_bye-unanswered_example =
    process_bye-unanswered events idle "a" (new_record header 5) 9 tt refl refl
