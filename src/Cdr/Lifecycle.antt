-- ===== src/Cdr/Lifecycle.antt =====
-- The life of a call (services/sip-processor/app/cdr/processor.py).
use vox_guard.Base.{
  ℕ, ◌≡◌, ◌⊎◌, refl, String, Option, none, some, List, [], ◌∷◌, ◌++◌, All, arith, eq_iff, inl, inr,
}
use vox_guard.Base.Int.{pos}
use vox_guard.Base.Dict.{Dict, lookup, insert, erase}
use vox_guard.Cdr.Processor.{
  CallState, attempting, answered, completed, CdrRecord, HeaderInfo, CdrProcessor, record_duration,
  process_invite, process_answer, process_bye, process_failure, is_answered, duration_seconds,
  log_to_postgres, new_record, answer_found, bye_found, failure_found,
}

pub data Event : Type 0 where
  invite : HeaderInfo → Event
  answer bye : String → Event
  failure : String → CallState → Event

abbrev pub handle : Event × ℕ → CdrProcessor → CdrProcessor
handle (invite h, now) p = (process_invite h now p).1
handle (answer call_id, now) p = (process_answer call_id now p).1
handle (bye call_id, now) p = (process_bye call_id now p).1
handle (failure call_id state, now) p = (process_failure call_id state now p).1

abbrev pub handle_all : List (Event × ℕ) → CdrProcessor → CdrProcessor
handle_all [] p = p
handle_all (e ∷ es) p = handle_all es (handle e p)

-- An active call: under its own identifier, not ended, and either attempted or answered.
abbrev pub IsLive : String × CdrRecord → Type 0
IsLive e =
    (e.0 ≡ e.1.call_id)
    × (e.1.end_time ≡ none)
    × (((e.1.state ≡ attempting) × (e.1.answer_time ≡ none))
        ⊎ ((e.1.state ≡ answered) × ((at : ℕ) × (e.1.answer_time ≡ some at))))

abbrev pub AreLive : CdrProcessor → Type 0
AreLive p = All IsLive p.active_calls

insert-All :
    (k : String) (c : CdrRecord) (d : Dict CdrRecord)
    → IsLive (k, c)
    → All IsLive d
    → All IsLive (insert k c d)
insert-All k c [] h hs = (h, tt)
insert-All k c (e ∷ d) h hs = ground (arith, insert-All k c d h hs.1, eq_iff e.0 k)

erase-All : (k : String) (d : Dict CdrRecord) → All IsLive d → All IsLive (erase k d)
erase-All k [] hs = tt
erase-All k (e ∷ d) hs = ground (arith, erase-All k d hs.1)

lookup-IsLive :
    (k : String) (d : Dict CdrRecord) (c : CdrRecord)
    → All IsLive d
    → lookup k d ≡ some c
    → IsLive (k, c)
lookup-IsLive k [] c hs e = absurd (ground arith)
lookup-IsLive k (x ∷ d) c hs e = ground (arith, lookup-IsLive k d c hs.1, eq_iff x.0 k)

answer_found-AreLive :
    (o : Option CdrRecord) (k : String) (now : ℕ) (p : CdrProcessor)
    → ((c : CdrRecord) → o ≡ some c → IsLive (k, c))
    → AreLive p
    → AreLive (answer_found o k now p).1
answer_found-AreLive none k now p h hs = hs
answer_found-AreLive (some c) k now p h hs =
    insert-All k (record c { state = answered; answer_time = some now }) p.active_calls
      ((h c refl).0, (h c refl).1, inr (refl, (now, refl))) hs

bye_found-AreLive :
    (o : Option CdrRecord) (k : String) (now : ℕ) (p : CdrProcessor)
    → AreLive p
    → AreLive (bye_found o k now p).1
bye_found-AreLive none k now p hs = hs
bye_found-AreLive (some c) k now p hs = erase-All k p.active_calls hs

failure_found-AreLive :
    (o : Option CdrRecord) (k : String) (state : CallState) (now : ℕ) (p : CdrProcessor)
    → AreLive p
    → AreLive (failure_found o k state now p).1
failure_found-AreLive none k state now p hs = hs
failure_found-AreLive (some c) k state now p hs = erase-All k p.active_calls hs

handle-AreLive : (e : Event × ℕ) (p : CdrProcessor) → AreLive p → AreLive (handle e p)
unfolding process_invite process_answer process_bye process_failure
handle-AreLive (invite h, now) p hs =
    insert-All h.call_id (new_record h now) p.active_calls (refl, refl, inl (refl, refl)) hs
handle-AreLive (answer k, now) p hs =
    answer_found-AreLive (lookup k p.active_calls) k now p
      (λ c e. lookup-IsLive k p.active_calls c hs e) hs
handle-AreLive (bye k, now) p hs = bye_found-AreLive (lookup k p.active_calls) k now p hs
handle-AreLive (failure k state, now) p hs =
    failure_found-AreLive (lookup k p.active_calls) k state now p hs

-- Whatever events come, in any order and for any calls: every active call stands under its own
-- identifier, has not ended, and has either been attempted and has no time of answer, or been
-- answered and has one.
pub handle_all-AreLive :
    (es : List (Event × ℕ)) (p : CdrProcessor) → AreLive p → AreLive (handle_all es p)
handle_all-AreLive [] p hs = hs
handle_all-AreLive (e ∷ es) p hs = handle_all-AreLive es (handle e p) (handle-AreLive e p hs)

-- After any events, a BYE for a call that is active and was never answered still asks for a
-- duration to be recorded, of zero seconds.
pub process_bye-unanswered :
    (es : List (Event × ℕ)) (p : CdrProcessor) (k : String) (c : CdrRecord) (now : ℕ)
    → AreLive p
    → lookup k (handle_all es p).active_calls ≡ some c
    → c.state ≡ attempting
    → (process_bye k now (handle_all es p)).1.requests
      ≡ (handle_all es p).requests
        ++ record_duration c.b_number (pos 0)
          ∷ log_to_postgres
              (record c { state = completed; end_time = some now })
              (handle_all es p).has_postgres
unfolding process_bye is_answered duration_seconds
process_bye-unanswered es p k c now hs found fresh =
    let live =
      lookup-IsLive k (handle_all es p).active_calls c (handle_all-AreLive es p hs) found in
    rw found (ground (arith, live.2))
