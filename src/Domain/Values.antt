-- ===== src/Domain/Values.antt =====
-- Scores, severities, addresses, windows and thresholds
-- (services/sip-processor/app/domain/value_objects/value_objects.py). Scores are in units of
-- 1/10000.
use vox_guard.Base.{ℕ, String, Bool, not, ◌||◌, Option, none, some, min, leb, ltb, if◌then◌else◌}
use vox_guard.Base.Int.{ℤ, pos, negsuc}
use vox_guard.Domain.Result.{Result, ok, err, invalid_ip_address, invalid_window, invalid_threshold}

pub data Severity : Type 0 where
  low medium high critical : Severity

unfoldable pub from_score : ℕ → Severity
from_score score =
    if leb 9000 score
    then critical
    else if leb 7500 score
    then high
    else if leb 5000 score
    then medium
    else low

pub data FraudType : Type 0 where
  cli_masking simbox wangiri irsf pbx_hacking unknown : FraudType

-- `max(0.0, min(1.0, value))`
unfoldable pub clamp : ℤ → ℕ
clamp (pos n) = min 10000 n
clamp (negsuc n) = 0

pub record FraudScore : Type 0 where
  pub value : ℕ

unfoldable pub make_score : ℤ → FraudScore
unfolding clamp
make_score v = record { value = clamp v }

unfoldable pub severity : FraudScore → Severity
unfolding from_score
severity s = from_score s.value

unfoldable pub is_high_confidence : FraudScore → Bool
is_high_confidence s = leb 8000 s.value

unfoldable pub exceeds_block_threshold : FraudScore → Bool
exceeds_block_threshold s = leb 9000 s.value

-- What the module `ipaddress` says of an address that it can read.
pub record ParsedIp : Type 0 where
  pub is_ipv4 : Bool
  pub is_private : Bool

pub record IpAddress : Type 0 where
  pub value : String
  pub parsed : ParsedIp

abbrev pub with_parsed : String → Option ParsedIp → Result IpAddress
with_parsed value none = err invalid_ip_address
with_parsed value (some p) = ok (record { value = value; parsed = p })

-- The constructor; `ip_address` is the function of `ipaddress`, none its `ValueError`.
unfoldable pub make_ip : (String → Option ParsedIp) → String → Result IpAddress
make_ip ip_address value = with_parsed value (ip_address value)

unfoldable pub is_likely_international : IpAddress → Bool
is_likely_international ip = not ip.parsed.is_private

-- `DetectionWindow`
unfoldable pub make_window : ℕ → Result ℕ
make_window seconds = if ltb seconds 1 || ltb 60 seconds then err invalid_window else ok seconds

-- `DetectionThreshold`
unfoldable pub make_threshold : ℕ → Result ℕ
make_threshold callers =
    if ltb callers 2 || ltb 100 callers then err invalid_threshold else ok callers
