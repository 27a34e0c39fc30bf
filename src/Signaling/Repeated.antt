-- ===== src/Signaling/Repeated.antt =====
-- What becomes of a header that comes several times, and of a response
-- (services/sip-processor/app/signaling/parser.py).
use vox_guard.Base.{
  ◌≡◌, refl, true, false, none, some, List, [], ◌∷◌, ◌++◌, All, arith, Bool-cases, inl, inr,
}
use vox_guard.Domain.Msisdn.Defs.{Text, text_eq, codes, is_space}
use vox_guard.Signaling.Text.{is_empty}
use vox_guard.Signaling.Headers.{
  HeaderDict, header, set_header, ParserState, is_continuation, parse_line, parse_next, parse_from,
  parse_headers,
}
use vox_guard.Signaling.Message.{invite, parse_method, parse_sip_message, is_sip_message}

text_eq_refl : (t : Text) → text_eq t t ≡ true
text_eq_refl [] = refl
text_eq_refl (c ∷ cs) = ground (arith, text_eq_refl cs)

text_eq_sound : (s t : Text) → text_eq s t ≡ true → s ≡ t
text_eq_sound [] [] h = refl
text_eq_sound (a ∷ as') (b ∷ bs) h = ground (arith, text_eq_sound as' bs)
text_eq_sound [] (b ∷ bs) h = absurd (ground (arith, h))
text_eq_sound (a ∷ as') [] h = absurd (ground (arith, h))

header-set_header :
    (name value : Text) (hs : HeaderDict) → header name (set_header name value hs) ≡ some value
header-set_header name value [] = rw (text_eq_refl name) refl
header-set_header name value ((n, v) ∷ hs) = elim (Bool-cases (text_eq n name)) [
  | inl same ↦ rw (same) (rw same refl)
  | inr other ↦ rw other (rw other (header-set_header name value hs))
]

-- The lines of the headers: none is empty.
abbrev pub AreHeaders : List Text → Type 0
AreHeaders lines = All (λ l. is_empty l ≡ false) lines

module _ (lower : Text → Text) where
  parse_from-append :
      (lines more : List Text) (s : ParserState)
      → AreHeaders lines
      → parse_from lower (lines ++ more) s ≡ parse_from lower more (parse_from lower lines s)
  unfolding parse_from
  parse_from-append [] more s h = refl
  parse_from-append (l ∷ ls) more s (full, h) =
      rw full (parse_from-append ls more (parse_next lower l s) h)

  -- Of a header that comes several times, the last one is kept: for any lines before, a line with a
  -- name and a value, at the end of the headers, sets what is stored under its name in lower case.
  pub parse_headers-last :
      (lines : List Text) (line name value : Text)
      → AreHeaders lines
      → is_empty line ≡ false
      → is_continuation line ≡ false
      → parse_line line ≡ some (name, value)
      → header (lower name) (parse_headers lower (lines ++ (line ∷ []))) ≡ some value
  unfolding parse_headers parse_from
  parse_headers-last lines line name value h full starts parsed =
      rw (parse_from-append lines (line ∷ []) (record { headers = []; current = none }) h)
        (rw (full, starts, parsed) (header-set_header (lower name) value _))

-- Every response is a message, and is taken for an `INVITE`: whatever the status and the headers, if
-- only the upper case of `SIP/2.0` is itself.
pub parse_sip_message-response :
    (upper lower : Text → Text) (status : Text) (lines : List Text)
    → upper (codes "SIP/2.0") ≡ codes "SIP/2.0"
    → (is_sip_message (codes "SIP/2.0 " ++ status) ≡ true)
      × ((parse_sip_message upper lower (codes "SIP/2.0 " ++ status) lines).method ≡ invite)
unfolding parse_sip_message is_sip_message parse_method is_space
parse_sip_message-response upper lower status lines same = (refl, rw same refl)
