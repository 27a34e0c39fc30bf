-- ===== src/Signaling/Headers.antt =====
-- `_parse_headers` and `_parse_multi_header` (services/sip-processor/app/signaling/parser.py).
use vox_guard.Base.{
  Bool, false, ◌||◌, Option, none, some, List, [], ◌∷◌, ◌++◌, ◌==◌, map, if◌then◌else◌,
}
use vox_guard.Domain.Msisdn.Defs.{Text, text_eq}
use vox_guard.Signaling.Text.{has, before, after, split, strip, is_empty}

-- A dictionary of the headers, in the order in which they come first.
abbrev pub HeaderDict : Type 0
HeaderDict = List (Text × Text)

abbrev pub header : Text → HeaderDict → Option Text
header name [] = none
header name ((n, v) ∷ hs) = let rest = header name hs in if text_eq n name then some v else rest

abbrev pub set_header : Text → Text → HeaderDict → HeaderDict
set_header name value [] = (name, value) ∷ []
set_header name value ((n, v) ∷ hs) =
    let rest = set_header name value hs in if text_eq n name then (n, value) ∷ hs else (n, v) ∷ rest

-- The loop's `headers`, and `current_header` with `current_value`, if it is set and not empty.
pub record ParserState : Type 0 where
  pub headers : HeaderDict
  pub current : Option (Text × Text)

abbrev pub is_continuation : Text → Bool
is_continuation [] = false
is_continuation (c ∷ cs) = (c == b' ') || (c == 9)

abbrev pub continue_with : Text → Option (Text × Text) → Option (Text × Text)
continue_with line none = none
continue_with line (some (name, value)) = some (name, value ++ (b' ' ∷ strip line))

abbrev pub new_header : Text → Text → Option (Text × Text)
new_header [] value = none
new_header (c ∷ cs) value = some (c ∷ cs, value)

-- The name and the value of a line.
abbrev pub parse_line : Text → Option (Text × Text)
parse_line line =
    if has b':' line then new_header (strip (before b':' line)) (strip (after b':' line)) else none

-- `lower` is `str.lower`.
module _ (lower : Text → Text) where
  abbrev pub save : Option (Text × Text) → HeaderDict → HeaderDict
  save none headers = headers
  save (some (name, value)) headers = set_header (lower name) value headers

  abbrev pub parse_next : Text → ParserState → ParserState
  parse_next line s =
      if is_continuation line
      then record s { current = continue_with line s.current }
      else record { headers = save s.current s.headers; current = parse_line line }

  -- An empty line ends the headers.
  unfoldable pub parse_from : List Text → ParserState → ParserState
  parse_from [] s = s
  parse_from (line ∷ lines) s =
      let rest = parse_from lines (parse_next line s) in if is_empty line then s else rest

  abbrev pub saved : ParserState → HeaderDict
  saved s = save s.current s.headers

  unfoldable pub parse_headers : List Text → HeaderDict
  unfolding parse_from
  parse_headers lines = saved (parse_from lines (record { headers = []; current = none }))

abbrev pub values_of : Option Text → List Text
values_of none = []
values_of (some v) = map strip (split b',' v)

unfoldable pub parse_multi_header : HeaderDict → Text → Text → List Text
parse_multi_header headers name short_name =
    values_of (header name headers) ++ values_of (header short_name headers)
