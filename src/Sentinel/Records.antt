-- ===== src/Sentinel/Records.antt =====
-- `CallRecord` (services/sip-processor/app/sentinel/models.py), as it is before it is stored: the
-- two fields that the database fills are left out.
use Prim.Native.Char.{code}
use vox_guard.Base.{
  ℕ, zero, suc, String, Bool, true, false, ◌&&◌, ◌||◌, Option, none, some, List, [], ◌∷◌, leb, ◌==◌,
  str_eq, if◌then◌else◌, length,
}
use vox_guard.Base.Int.{ℤ, pos, negsuc}
use vox_guard.Base.Options.{◌>>=◌, ◌>>◌, guard}

abbrev pub codes : String → List ℕ
codes String.[] = []
codes (String.◌∷◌ c s) = code c ∷ codes s

pub record CallRecord : Type 0 where
  pub call_timestamp : ℕ
  pub caller_number : String
  pub callee_number : String
  pub duration_seconds : ℕ
  pub call_direction : Option String
  pub termination_cause : Option String
  pub location_code : Option String

-- What Python's `\d` matches besides the ten ASCII digits is a parameter.
module _ (is_other_digit : ℕ → Bool) where
  abbrev pub is_decimal : ℕ → Bool
  is_decimal c = (leb b'0' c && leb c b'9') || is_other_digit c

  abbrev pub at_end : List ℕ → Bool
  at_end [] = true
  at_end (c ∷ []) = c == 10
  at_end (c ∷ d ∷ cs) = false

  -- `\d{0,n}$`, which matches no end that is followed by more digits than `n`.
  unfoldable pub digits_up_to : ℕ → List ℕ → Bool
  digits_up_to zero cs = at_end cs
  digits_up_to (suc n) [] = true
  digits_up_to (suc n) (c ∷ cs) =
      let more = digits_up_to n cs in if is_decimal c then more else at_end (c ∷ cs)

  -- `[1-9]\d{1,14}$`
  abbrev pub is_significant : List ℕ → Bool
  is_significant [] = false
  is_significant (c ∷ []) = false
  is_significant (c ∷ d ∷ cs) = (leb b'1' c && leb c b'9') && (is_decimal d && digits_up_to 13 cs)

  abbrev pub skip_plus : List ℕ → List ℕ
  skip_plus [] = []
  skip_plus (c ∷ cs) = if c == b'+' then cs else c ∷ cs

  -- `validate_e164_format`
  unfoldable pub is_e164 : String → Bool
  unfolding digits_up_to
  is_e164 v = is_significant (skip_plus (codes v))

  abbrev pub is_at_most : ℕ → Option String → Bool
  is_at_most n none = true
  is_at_most n (some s) = leb (length (codes s)) n

  -- `validate_direction`
  abbrev pub is_direction : Option String → Bool
  is_direction none = true
  is_direction (some s) = str_eq s "inbound" || str_eq s "outbound"

  abbrev pub is_number : String → Bool
  is_number v = (leb 1 (length (codes v)) && leb (length (codes v)) 20) && is_e164 v

  abbrev pub natural : ℤ → Option ℕ
  natural (pos n) = some n
  natural (negsuc n) = none

  -- The constructor with its checks; none is the `ValidationError`.
  unfoldable pub make_call_record :
      ℕ → String → String → ℤ → Option String → Option String → Option String → Option CallRecord
  unfolding is_e164
  make_call_record timestamp caller callee duration direction cause location = do
    guard (is_number caller)
    guard (is_number callee)
    seconds ← natural duration
    guard (is_at_most 10 direction && is_direction direction)
    guard (is_at_most 50 cause)
    guard (is_at_most 10 location)
    some (record {
      call_timestamp = timestamp;
      caller_number = caller;
      callee_number = callee;
      duration_seconds = seconds;
      call_direction = direction;
      termination_cause = cause;
      location_code = location;
    })
