-- ===== src/Signaling/Message.antt =====
-- `parse_sip_message` and `is_sip_message` (services/sip-processor/app/signaling/parser.py), and
-- `SIPHeaderInfo` (services/sip-processor/app/signaling/models.py) without the time.
use vox_guard.Base.{
  Bool, true, false, ◌&&◌, not, Option, none, some, List, [], ◌∷◌, any, if◌then◌else◌,
}
use vox_guard.Domain.Msisdn.Defs.{Text, codes, text_eq, starts_with}
use vox_guard.Signaling.Text.{is_empty, first_word}
use vox_guard.Signaling.Numbers.{extract_number, extract_number_from_uri, non_empty}
use vox_guard.Signaling.Headers.{HeaderDict, header, parse_headers, parse_multi_header}

pub data SipMethod : Type 0 where
  invite ack bye cancel register options info update prack subscribe notify refer message :
      SipMethod

abbrev pub sip_methods : List (Text × SipMethod)
sip_methods =
    (codes "INVITE", invite)
    ∷ (codes "ACK", ack)
    ∷ (codes "BYE", bye)
    ∷ (codes "CANCEL", cancel)
    ∷ (codes "REGISTER", register)
    ∷ (codes "OPTIONS", options)
    ∷ (codes "INFO", info)
    ∷ (codes "UPDATE", update)
    ∷ (codes "PRACK", prack)
    ∷ (codes "SUBSCRIBE", subscribe)
    ∷ (codes "NOTIFY", notify)
    ∷ (codes "REFER", refer)
    ∷ (codes "MESSAGE", message)
    ∷ []

-- `SIPMethod(name)`, or `INVITE` where that raises.
abbrev pub method_of : Text → List (Text × SipMethod) → SipMethod
method_of name [] = invite
method_of name ((n, m) ∷ ms) = let rest = method_of name ms in if text_eq n name then m else rest

pub record SipHeaderInfo : Type 0 where
  pub call_id : Text
  pub cli : Option Text
  pub p_asserted_identity : Option Text
  pub remote_party_id : Option Text
  pub from_uri : Text
  pub to_uri : Text
  pub contact_uri : Option Text
  pub via : List Text
  pub cseq : Text
  pub method : SipMethod

abbrev pub or_default : Text → Option Text → Text
or_default default none = default
or_default default (some v) = v

-- `headers.get(name, headers.get(short_name, ""))`
abbrev pub long_or_short : HeaderDict → Text → Text → Text
long_or_short headers name short_name =
    or_default (or_default [] (header short_name headers)) (header name headers)

abbrev pub identity : Option Text → Option Text
identity none = none
identity (some v) = extract_number_from_uri v

abbrev pub header_info : HeaderDict → SipMethod → SipHeaderInfo
header_info headers method = record {
  call_id = long_or_short headers (codes "call-id") (codes "i");
  cli = extract_number_from_uri (long_or_short headers (codes "from") (codes "f"));
  p_asserted_identity = identity (header (codes "p-asserted-identity") headers);
  remote_party_id = identity (header (codes "remote-party-id") headers);
  from_uri = long_or_short headers (codes "from") (codes "f");
  to_uri = long_or_short headers (codes "to") (codes "t");
  contact_uri = non_empty (long_or_short headers (codes "contact") (codes "m"));
  via = parse_multi_header headers (codes "via") (codes "v");
  cseq = or_default [] (header (codes "cseq") headers);
  method = method;
}

-- `upper` and `lower` are Python's `str.upper` and `str.lower`.
module _ (upper lower : Text → Text) where
  unfoldable pub parse_method : Text → SipMethod
  parse_method request_line =
      if is_empty (first_word request_line)
      then invite
      else method_of (upper (first_word request_line)) sip_methods

  -- The lines of the message, of which there is always one, split at the ends of lines.
  unfoldable pub parse_sip_message : Text → List Text → SipHeaderInfo
  unfolding parse_method parse_headers parse_multi_header
  parse_sip_message request_line lines =
      header_info (parse_headers lower lines) (parse_method request_line)

-- `a_number`, `b_number` and `has_cli_mismatch`
abbrev pub or_else : Option Text → Text → Text
or_else none t = t
or_else (some v) t = if is_empty v then t else v

unfoldable pub a_number : SipHeaderInfo → Text
a_number h = or_else h.p_asserted_identity (or_else h.cli [])

unfoldable pub b_number : SipHeaderInfo → Text
b_number h = extract_number h.to_uri

abbrev pub differ : Option Text → Option Text → Bool
differ (some a) (some b) = not (is_empty a) && not (is_empty b) && not (text_eq a b)
differ (some a) none = false
differ none b = false

unfoldable pub has_cli_mismatch : SipHeaderInfo → Bool
has_cli_mismatch h = differ h.cli h.p_asserted_identity

-- The first bytes of a request or a response.
unfoldable pub is_sip_message : Text → Bool
is_sip_message data' =
    if starts_with (codes "SIP/2.0") data'
    then true
    else any (λ (m : Text × SipMethod). starts_with m.0 data') sip_methods
