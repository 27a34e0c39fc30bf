-- ===== src/Signaling/Numbers.antt =====
-- `extract_number` (services/sip-processor/app/signaling/models.py) and `extract_number_from_uri`
-- (services/sip-processor/app/signaling/parser.py).
use vox_guard.Base.{◌&&◌, not, Option, none, some, [], ◌∷◌, ◌==◌, if◌then◌else◌}
use vox_guard.Domain.Msisdn.Defs.{Text, codes, strip_prefix}
use vox_guard.Signaling.Text.{has, before, strip, is_empty}

abbrev pub sip_scheme : Text
sip_scheme = codes "sip:"

abbrev pub tel_scheme : Text
tel_scheme = codes "tel:"

abbrev pub bracket_scheme : Text
bracket_scheme = codes "<sip:"

abbrev pub unless_stripped : Option Text → Text → Text
unless_stripped none uri = uri
unless_stripped (some rest) uri = rest

-- Without the first of the three prefixes that the text has.
abbrev pub drop_scheme : Text → Text
drop_scheme uri = unless_stripped (strip_prefix sip_scheme uri) (
    unless_stripped (strip_prefix tel_scheme uri)
      (unless_stripped (strip_prefix bracket_scheme uri) uri))

unfoldable pub extract_number : Text → Text
extract_number uri =
    if is_empty uri then [] else strip (before b';' (before b'@' (before b'>' (drop_scheme uri))))

-- `re.search(r'<([^>]+)>', text)`, the group of the first match.
abbrev pub in_brackets : Text → Option Text
in_brackets [] = none
in_brackets (c ∷ cs) =
    let rest = in_brackets cs in
    if (c == b'<') && (has b'>' cs && not (is_empty (before b'>' cs)))
    then some (before b'>' cs)
    else rest

abbrev pub or_whole : Option Text → Text → Text
or_whole none header = header
or_whole (some uri) header = uri

-- An empty text counts as nothing.
abbrev pub non_empty : Text → Option Text
non_empty [] = none
non_empty (c ∷ cs) = some (c ∷ cs)

unfoldable pub extract_number_from_uri : Text → Option Text
unfolding extract_number
extract_number_from_uri header =
    if is_empty header
    then none
    else non_empty (extract_number (or_whole (in_brackets header) header))
