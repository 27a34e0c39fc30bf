-- ===== src/Signaling/Text.antt =====
-- The methods of Python's `str` that the parser uses; a text is the list of its code points.
use vox_guard.Base.{
  ℕ, ◌≡◌, refl, Bool, true, false, ◌&&◌, ◌||◌, List, [], ◌∷◌, ◌++◌, ◌==◌, if◌then◌else◌, arith,
}
use vox_guard.Domain.Msisdn.Defs.{Text, is_space}

-- `c in text`
abbrev pub has : ℕ → Text → Bool
has c [] = false
has c (d ∷ ds) = if d == c then true else has c ds

-- `text.split(c)[0]`, which is the text if there is no `c` in it.
abbrev pub before : ℕ → Text → Text
before c [] = []
before c (d ∷ ds) = let rest = before c ds in if d == c then [] else d ∷ rest

-- `text.partition(c)[2]`
abbrev pub after : ℕ → Text → Text
after c [] = []
after c (d ∷ ds) = let rest = after c ds in if d == c then ds else rest

-- `text.split(c)`, as the first part and the others.
abbrev pub split_first : ℕ → Text → Text × List Text
split_first c [] = ([], [])
split_first c (d ∷ ds) =
    let (first, others) = split_first c ds in
    if d == c then ([], first ∷ others) else (d ∷ first, others)

abbrev pub split : ℕ → Text → List Text
split c t = (split_first c t).0 ∷ (split_first c t).1

abbrev pub strip_left : Text → Text
strip_left [] = []
strip_left (c ∷ cs) = let rest = strip_left cs in if is_space c then rest else c ∷ cs

abbrev pub is_empty : Text → Bool
is_empty [] = true
is_empty (c ∷ cs) = false

abbrev pub strip_right : Text → Text
strip_right [] = []
strip_right (c ∷ cs) =
    let rest = strip_right cs in if is_space c && is_empty rest then [] else c ∷ rest

-- `text.strip()`
abbrev pub strip : Text → Text
strip t = strip_right (strip_left t)

-- `text.split()[0]`, if there is a word.
abbrev pub word_from : Text → Text
word_from [] = []
word_from (c ∷ cs) = let rest = word_from cs in if is_space c then [] else c ∷ rest

abbrev pub first_word : Text → Text
first_word t = word_from (strip_left t)

pub before-append :
    (c : ℕ) (xs ys : Text) → has c xs ≡ false → before c (xs ++ ys) ≡ xs ++ before c ys
before-append c [] ys h = refl
before-append c (x ∷ xs) ys h = ground (arith, before-append c xs ys)

pub before_absent : (c : ℕ) (xs : Text) → has c xs ≡ false → before c xs ≡ xs
before_absent c [] h = refl
before_absent c (x ∷ xs) h = ground (arith, before_absent c xs)

pub has-append : (c : ℕ) (xs ys : Text) → has c (xs ++ ys) ≡ (has c xs || has c ys)
has-append c [] ys = refl
has-append c (x ∷ xs) ys = ground (arith, has-append c xs ys)
