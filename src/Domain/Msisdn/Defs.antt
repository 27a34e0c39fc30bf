-- ===== src/Domain/Msisdn/Defs.antt =====
-- `MSISDN` (services/sip-processor/app/domain/value_objects/value_objects.py).
use Prim.Native.Char.{code}
use vox_guard.Base.{
  ℕ, zero, suc, String, Bool, true, false, ◌&&◌, ◌||◌, Option, none, some, List, [], ◌∷◌, ◌++◌, leb,
  ◌==◌, if◌then◌else◌, length,
}
use vox_guard.Domain.Result.{Result, ok, err, invalid_msisdn}

-- The code points of a text.
abbrev pub codes : String → List ℕ
codes String.[] = []
codes (String.◌∷◌ c s) = code c ∷ codes s

abbrev pub Text : Type 0
Text = List ℕ

abbrev pub text_eq : Text → Text → Bool
text_eq [] [] = true
text_eq (a ∷ as') (b ∷ bs) = (a == b) && text_eq as' bs
text_eq _ _ = false

-- What `\s` matches: ASCII white space, and the other spaces of Unicode.
unfoldable pub is_space : ℕ → Bool
is_space c =
    (leb 9 c && leb c 13)
    || (leb 28 c && leb c 32)
    || (c == 133)
    || (c == 160)
    || (c == 5760)
    || (leb 8192 c && leb c 8202)
    || (c == 8232)
    || (c == 8233)
    || (c == 8239)
    || (c == 8287)
    || (c == 12288)

abbrev pub is_digit : ℕ → Bool
is_digit c = leb b'0' c && leb c b'9'

abbrev pub plus : ℕ
plus = b'+'

abbrev pub newline : ℕ
newline = 10

-- `[0-9]{n}$`: the end, or a newline before it.
unfoldable pub digits_then_end : ℕ → Text → Bool
digits_then_end zero [] = true
digits_then_end zero (c ∷ []) = c == newline
digits_then_end zero (c ∷ d ∷ cs) = false
digits_then_end (suc n) [] = false
digits_then_end (suc n) (c ∷ cs) = if is_digit c then digits_then_end n cs else false

abbrev pub strip_prefix : Text → Text → Option Text
strip_prefix [] v = some v
strip_prefix (p ∷ ps) [] = none
strip_prefix (p ∷ ps) (c ∷ cs) = if p == c then strip_prefix ps cs else none

-- `value.startswith(prefix)`
abbrev pub starts_with : Text → Text → Bool
starts_with [] v = true
starts_with (p ∷ ps) [] = false
starts_with (p ∷ ps) (c ∷ cs) = if p == c then starts_with ps cs else false

abbrev pub skip_plus : Text → Text
skip_plus [] = []
skip_plus (c ∷ cs) = if c == plus then cs else c ∷ cs

abbrev pub country : Text
country = b'2' ∷ b'3' ∷ b'4' ∷ []

abbrev pub ten_digits_after : Option Text → Bool
ten_digits_after none = false
ten_digits_after (some rest) = digits_then_end 10 rest

-- `_is_valid`: the pattern `^\+?234[0-9]{10}$`.
unfoldable pub is_valid : Text → Bool
unfolding digits_then_end
is_valid v = ten_digits_after (strip_prefix country (skip_plus v))

-- `re.sub(r'[\s\-]', '', value)`
unfoldable pub clean : Text → Text
clean [] = []
clean (c ∷ cs) = let rest = clean cs in if is_space c || (c == b'-') then rest else c ∷ rest

abbrev pub rest_of : Text → Text
rest_of [] = []
rest_of (c ∷ cs) = cs

-- The three formats that are told apart once spaces and dashes are gone.
unfoldable pub canonical : Text → Text
canonical cleaned =
    if starts_with (b'0' ∷ []) cleaned && (length cleaned == 11)
    then (plus ∷ country) ++ rest_of cleaned
    else if starts_with country cleaned && (length cleaned == 13)
    then plus ∷ cleaned
    else cleaned

-- `_normalize`; its third case returns what its last one does.
unfoldable pub normalize : Text → Text
unfolding clean canonical
normalize v = canonical (clean v)

pub record Msisdn : Type 0 where
  pub value : Text

-- The constructor, with `__post_init__`.
unfoldable pub make_msisdn : Text → Result Msisdn
unfolding is_valid
make_msisdn v = if is_valid v then ok (record { value = v }) else err invalid_msisdn

unfoldable pub from_string : Text → Result Msisdn
from_string v = make_msisdn (normalize v)

unfoldable pub is_nigerian : Msisdn → Bool
is_nigerian m = starts_with (plus ∷ country) m.value

abbrev pub drop : ℕ → Text → Text
drop zero v = v
drop (suc n) [] = []
drop (suc n) (c ∷ cs) = drop n cs

abbrev pub take : ℕ → Text → Text
take zero v = []
take (suc n) [] = []
take (suc n) (c ∷ cs) = c ∷ take n cs

unfoldable pub prefix : Msisdn → Text
unfolding is_nigerian
prefix m = if is_nigerian m then b'0' ∷ take 3 (drop 4 m.value) else take 4 m.value

pub data Carrier : Type 0 where
  mtn glo airtel nine_mobile : Carrier

-- `NIGERIAN_PREFIXES`
abbrev pub nigerian_prefixes : List (Carrier × List String)
nigerian_prefixes =
    (mtn, "0803" ∷ "0806" ∷ "0703" ∷ "0706" ∷ "0813" ∷ "0816" ∷ "0814" ∷ "0903" ∷ "0906" ∷ [])
    ∷ (glo, "0805" ∷ "0807" ∷ "0705" ∷ "0815" ∷ "0811" ∷ "0905" ∷ [])
    ∷ (airtel, "0802" ∷ "0808" ∷ "0708" ∷ "0812" ∷ "0701" ∷ "0902" ∷ "0901" ∷ "0907" ∷ [])
    ∷ (nine_mobile, "0809" ∷ "0818" ∷ "0817" ∷ "0909" ∷ "0908" ∷ [])
    ∷ []

abbrev pub is_listed : Text → List String → Bool
is_listed p [] = false
is_listed p (q ∷ qs) = if text_eq p (codes q) then true else is_listed p qs

abbrev pub carrier_of : Text → List (Carrier × List String) → Option Carrier
carrier_of p [] = none
carrier_of p (e ∷ rest) = if is_listed p e.1 then some e.0 else carrier_of p rest

unfoldable pub carrier : Msisdn → Option Carrier
unfolding prefix
carrier m = carrier_of (prefix m) nigerian_prefixes
