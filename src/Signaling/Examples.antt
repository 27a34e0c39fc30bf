-- ===== src/Signaling/Examples.antt =====
-- Two headers, a message with a header that comes twice, a response, and three packets.
use vox_guard.Base.{
  ℕ, ◌≡◌, refl, Bool, true, false, some, List, [], ◌∷◌, if◌then◌else◌, map, leb, ◌&&◌, ◌+◌,
}
use vox_guard.Domain.Msisdn.Defs.{Text, codes, is_space}
use vox_guard.Signaling.Numbers.{extract_number_from_uri}
use vox_guard.Signaling.Headers.{header, parse_headers}
use vox_guard.Signaling.Message.{invite, parse_sip_message, is_sip_message}
use vox_guard.Signaling.Listener.{Packet, Action, capturing, processing, starting, run, no_events}
use vox_guard.Signaling.Extraction.{IsUser, host, sip, extract_number_from_uri_lem}
use vox_guard.Signaling.Repeated.{parse_headers-last, parse_sip_message-response}
use vox_guard.Signaling.Delivery.{Delivers, captured, run-no_events}

abbrev ascii_lower : Text → Text
ascii_lower t = map (λ c. if leb b'A' c && leb c b'Z' then c + 32 else c) t

abbrev user : Text
user = codes "+12025551234"

user-IsUser : IsUser user
unfolding is_space
user-IsUser = record { no_end = refl; no_at = refl; no_parameter = refl; is_stripped = refl }

-- A caller whose display name holds an address of its own.
extract_number_from_uri_lem_example :
    extract_number_from_uri (codes "\"<sip:+12025551234@x>\" <sip:+2348031234567@example.com>")
    ≡ some user
extract_number_from_uri_lem_example =
    extract_number_from_uri_lem (codes "\"") (codes "sip:") user (codes "@x")
      (codes "\" <sip:+2348031234567@example.com>") refl sip user-IsUser refl (host (codes "x"))
      refl

parse_headers-last_example :
    header
      (codes "via")
      (parse_headers ascii_lower (codes "Via: a" ∷ codes "To: b" ∷ codes "Via: c" ∷ []))
    ≡ some (codes "c")
unfolding is_space
parse_headers-last_example =
    parse_headers-last ascii_lower (codes "Via: a" ∷ codes "To: b" ∷ []) (codes "Via: c")
      (codes "Via") (codes "c") (refl, (refl, tt)) refl refl refl

parse_sip_message-response_example :
    (is_sip_message (codes "SIP/2.0 404 Not Found") ≡ true)
    × ((parse_sip_message (λ t. t) ascii_lower (codes "SIP/2.0 404 Not Found") []).method ≡ invite)
parse_sip_message-response_example =
    parse_sip_message-response (λ t. t) ascii_lower (codes "404 Not Found") [] refl

abbrev packet : ℕ → Bool → Packet ℕ
packet n looks_like_sip = record {
  is_udp = true;
  dport = 5060;
  sport = 5062;
  has_payload = true;
  looks_like_sip = looks_like_sip;
  event = some n;
}

abbrev actions : List (Action ℕ)
actions =
    capturing (packet 1 true)
    ∷ starting
    ∷ capturing (packet 2 false)
    ∷ capturing (packet 3 true)
    ∷ processing
    ∷ []

captured_two : captured 5060 actions ≡ 1 ∷ 3 ∷ []
captured_two = refl

run-no_events_example : Delivers (1 ∷ 3 ∷ []) (run 5060 actions no_events)
run-no_events_example = run-no_events 5060 actions
