-- ===== src/Signaling/Extraction.antt =====
-- Which number is taken from a header (services/sip-processor/app/signaling).
use vox_guard.Base.{ℕ, ◌≡◌, refl, true, false, some, [], ◌∷◌, ◌++◌, arith, ap, ◌∙◌}
use vox_guard.Domain.Msisdn.Defs.{Text}
use vox_guard.Signaling.Text.{
  has, before, strip, is_empty, before-append, before_absent, has-append,
}
use vox_guard.Signaling.Numbers.{
  sip_scheme, tel_scheme, extract_number, in_brackets, non_empty, extract_number_from_uri,
}

-- The user part of an address: a text with no white space at its ends and none of the characters
-- that end it.
pub record IsUser (user : Text) : Type 0 where
  pub no_end : has b'>' user ≡ false
  pub no_at : has b'@' user ≡ false
  pub no_parameter : has b';' user ≡ false
  pub is_stripped : strip user ≡ user

-- What comes after the user: nothing, or a host or a parameter, with anything after it.
pub data IsTail : Text → Type 0 where
  nothing : IsTail []
  host : (rest : Text) → IsTail (b'@' ∷ rest)
  parameter : (rest : Text) → IsTail (b';' ∷ rest)

append_nil : (t : Text) → t ++ [] ≡ t
append_nil [] = refl
append_nil (c ∷ cs) = ap (λ t. c ∷ t) (append_nil cs)

before-user :
    (user tail : Text) → IsUser user → IsTail tail → before b';' (before b'@' (user ++ tail)) ≡ user
before-user user _ is nothing =
    ap (λ t. before b';' (before b'@' t)) (append_nil user)
    ∙ (ap (before b';') (before_absent b'@' user is.no_at)
        ∙ before_absent b';' user is.no_parameter)
before-user user _ is (host rest) =
    ap (before b';') (before-append b'@' user (b'@' ∷ rest) is.no_at ∙ append_nil user)
    ∙ before_absent b';' user is.no_parameter
before-user user _ is (parameter rest) =
    ap (before b';') (before-append b'@' user (b';' ∷ rest) is.no_at)
    ∙ (before-append b';' user (b';' ∷ before b'@' rest) is.no_parameter ∙ append_nil user)

before_end-IsTail : (tail : Text) → IsTail tail → IsTail (before b'>' tail)
before_end-IsTail _ nothing = nothing
before_end-IsTail _ (host rest) = host (before b'>' rest)
before_end-IsTail _ (parameter rest) = parameter (before b'>' rest)

user_of :
    (user tail : Text)
    → IsUser user
    → IsTail tail
    → strip (before b';' (before b'@' (before b'>' (user ++ tail)))) ≡ user
user_of user tail is is_tail =
    ap (λ t. strip (before b';' (before b'@' t))) (before-append b'>' user tail is.no_end)
    ∙ (ap strip (before-user user (before b'>' tail) is (before_end-IsTail tail is_tail))
        ∙ is.is_stripped)

-- The two schemes.
pub data IsScheme : Text → Type 0 where
  sip : IsScheme sip_scheme
  tel : IsScheme tel_scheme

-- The number of an address is its user part, whatever host, port or parameters follow.
pub extract_number_lem :
    (scheme user tail : Text)
    → IsScheme scheme
    → IsUser user
    → IsTail tail
    → extract_number (scheme ++ (user ++ tail)) ≡ user
unfolding extract_number
extract_number_lem _ user tail sip is is_tail = user_of user tail is is_tail
extract_number_lem _ user tail tel is is_tail = user_of user tail is is_tail

-- The first brackets, if there is something in them.
in_brackets-first :
    (display inside rest : Text)
    → has b'<' display ≡ false
    → has b'>' inside ≡ false
    → is_empty inside ≡ false
    → in_brackets (display ++ (b'<' ∷ (inside ++ (b'>' ∷ rest)))) ≡ some inside
in_brackets-first [] inside rest no_open no_close full = found
  where
    whole : before b'>' (inside ++ (b'>' ∷ rest)) ≡ inside
    whole = before-append b'>' inside (b'>' ∷ rest) no_close ∙ append_nil inside

    closes : has b'>' (inside ++ (b'>' ∷ rest)) ≡ true
    closes = ground (arith, has-append b'>' inside (b'>' ∷ rest))

    found : in_brackets (b'<' ∷ (inside ++ (b'>' ∷ rest))) ≡ some inside
    found = rw (whole, closes) (rw full refl)
in_brackets-first (c ∷ cs) inside rest no_open no_close full =
    ground (arith, in_brackets-first cs inside rest)

scheme_closed :
    (scheme user tail : Text)
    → IsScheme scheme
    → IsUser user
    → has b'>' tail ≡ false
    → has b'>' (scheme ++ (user ++ tail)) ≡ false
scheme_closed _ user tail sip is no_close = ground (arith, has-append b'>' user tail, is.no_end)
scheme_closed _ user tail tel is no_close = ground (arith, has-append b'>' user tail, is.no_end)

scheme_opened : (scheme t : Text) → IsScheme scheme → is_empty (scheme ++ t) ≡ false
scheme_opened _ t sip = refl
scheme_opened _ t tel = refl

append-is_empty : (t : Text) (c : ℕ) (cs : Text) → is_empty (t ++ (c ∷ cs)) ≡ false
append-is_empty [] c cs = refl
append-is_empty (d ∷ ds) c cs = refl

non_empty_lem : (t : Text) → is_empty t ≡ false → non_empty t ≡ some t
non_empty_lem [] full = absurd (ground (arith, full))
non_empty_lem (c ∷ cs) full = refl

-- The number of a header is the user part of the address in its first brackets, whatever comes
-- before them, without such a bracket, and whatever comes after them: also if the brackets are in the
-- display name and the address of the caller follows.
pub extract_number_from_uri_lem :
    (display scheme user tail rest : Text)
    → has b'<' display ≡ false
    → IsScheme scheme
    → IsUser user
    → is_empty user ≡ false
    → IsTail tail
    → has b'>' tail ≡ false
    → extract_number_from_uri (display ++ (b'<' ∷ ((scheme ++ (user ++ tail)) ++ (b'>' ∷ rest))))
      ≡ some user
unfolding extract_number_from_uri
extract_number_from_uri_lem display scheme user tail rest no_open is_scheme is full is_tail
      no_close =
    let inside = scheme ++ (user ++ tail) in
    let closed = scheme_closed scheme user tail is_scheme is no_close in
    let opened = scheme_opened scheme (user ++ tail) is_scheme in
    rw
      (
        append-is_empty display b'<' (inside ++ (b'>' ∷ rest)),
        in_brackets-first display inside rest no_open closed opened,
        extract_number_lem scheme user tail is_scheme is is_tail,
      )
      (non_empty_lem user full)
