-- ===== src/Domain/Msisdn/Laws.antt =====
-- What a normalised number looks like
-- (services/sip-processor/app/domain/value_objects/value_objects.py).
use vox_guard.Base.{
  ℕ, zero, suc, ◌≡◌, refl, Bool, true, false, ◌&&◌, ◌||◌, [], ◌∷◌, ◌++◌, arith, ◌==◌, All, length,
  Bool-cases, inl, inr, ap, sym, ◌∙◌, ◌⊎◌,
}
use mathlib.Core.Path.{subst}
use vox_guard.Domain.Result.{ok}
use vox_guard.Domain.Msisdn.Defs.{
  Text, is_space, plus, country, digits_then_end, starts_with, is_valid, clean, canonical, rest_of,
  normalize, Msisdn, make_msisdn, from_string, is_nigerian,
}

abbrev pub is_dropped : ℕ → Bool
is_dropped c = is_space c || (c == b'-')

-- No space and no dash.
abbrev pub IsClean : Text → Type 0
IsClean = All (λ c. is_dropped c ≡ false)

clean-IsClean : (v : Text) → IsClean (clean v)
unfolding clean
clean-IsClean [] = tt
clean-IsClean (c ∷ cs) = ground (arith, clean-IsClean cs)

clean_of_IsClean : (v : Text) → IsClean v → clean v ≡ v
unfolding clean
clean_of_IsClean [] h = refl
clean_of_IsClean (c ∷ cs) h = ground (arith, clean_of_IsClean cs h.1)

canonical_idem : (v : Text) → canonical (canonical v) ≡ canonical v
unfolding canonical
canonical_idem v = ground arith

rest-IsClean : (v : Text) → IsClean v → IsClean (rest_of v)
rest-IsClean [] h = tt
rest-IsClean (c ∷ cs) h = h.1

canonical-IsClean : (v : Text) → IsClean v → IsClean (canonical v)
unfolding canonical is_space
canonical-IsClean v h = ground (arith, rest-IsClean v h)

digits_then_end-length : (n : ℕ) (v : Text) → IsClean v → digits_then_end n v ≡ true → length v ≡ n
unfolding digits_then_end is_space
digits_then_end-length zero [] h e = refl
digits_then_end-length zero (c ∷ []) h e = ground arith
digits_then_end-length zero (c ∷ d ∷ v) h e = ground arith
digits_then_end-length (suc n) [] h e = ground arith
digits_then_end-length (suc n) (c ∷ v) h e = ground (arith, digits_then_end-length n v h.1)

-- `+234` and ten more characters.
abbrev pub IsE164 : Text → Type 0
IsE164 v = (starts_with (plus ∷ country) v ≡ true) × (length v ≡ 14)

valid-plus : (w : Text) → IsClean w → is_valid (plus ∷ w) ≡ true → IsE164 (plus ∷ w)
unfolding is_valid
valid-plus [] h e = ground arith
valid-plus (a ∷ []) h e = ground arith
valid-plus (a ∷ b ∷ []) h e = ground arith
valid-plus (a ∷ b ∷ c ∷ w) h e = ground (arith, digits_then_end-length 10 w h.1.1.1)

valid_bare :
    (x : ℕ) (w : Text)
    → IsClean w
    → (x == plus) ≡ false
    → is_valid (x ∷ w) ≡ true
    → (starts_with country (x ∷ w) ≡ true) × (length (x ∷ w) ≡ 13)
unfolding is_valid
valid_bare x [] h ne e = ground arith
valid_bare x (b ∷ []) h ne e = ground arith
valid_bare x (b ∷ c ∷ w) h ne e = ground (arith, digits_then_end-length 10 w h.1.1)

canonical-cases :
    (v : Text)
    → (canonical v ≡ plus ∷ (country ++ rest_of v))
      ⊎ ((canonical v ≡ plus ∷ v)
          ⊎ ((canonical v ≡ v) × ((starts_with country v && (length v == 13)) ≡ false)))
unfolding canonical
canonical-cases v = ground arith

plus-IsE164 :
    (v w : Text)
    → IsClean v
    → canonical v ≡ plus ∷ w
    → is_valid (canonical v) ≡ true
    → IsE164 (canonical v)
plus-IsE164 v w h p e =
    rw p (valid-plus w (subst IsClean p (canonical-IsClean v h)).1 (ap is_valid (sym p) ∙ e))

unchanged-IsE164 :
    (v : Text)
    → IsClean v
    → (starts_with country v && (length v == 13)) ≡ false
    → is_valid v ≡ true
    → IsE164 v
unchanged-IsE164 [] h no_match e = absurd (unfold is_valid in ground arith)
unchanged-IsE164 (x ∷ w) h no_match e = elim (Bool-cases (x == plus)) [
  | inl p ↦
      let q : x ≡ plus = ground arith in
      rw q (valid-plus w h.1 (ap (λ t. is_valid (t ∷ w)) (sym q) ∙ e))
  | inr p ↦ absurd (ground (arith, valid_bare x w h.1 p e))
]

canonical-IsE164 : (v : Text) → IsClean v → is_valid (canonical v) ≡ true → IsE164 (canonical v)
canonical-IsE164 v h e = elim (canonical-cases v) [
  | inl p ↦ plus-IsE164 v (country ++ rest_of v) h p e
  | inr (inl p) ↦ plus-IsE164 v v h p e
  | inr (inr (p, no_match)) ↦ rw p (unchanged-IsE164 v h no_match (ap is_valid (sym p) ∙ e))
]

normalize-IsE164 : (v : Text) → is_valid (normalize v) ≡ true → IsE164 (normalize v)
unfolding normalize
normalize-IsE164 v e = canonical-IsE164 (clean v) (clean-IsClean v) e

normalize_idem : (v : Text) → normalize (normalize v) ≡ normalize v
unfolding normalize
normalize_idem v =
    ap canonical
      (clean_of_IsClean (canonical (clean v)) (canonical-IsClean (clean v) (clean-IsClean v)))
    ∙ canonical_idem (clean v)

make_msisdn-value :
    (v : Text) (m : Msisdn) → make_msisdn v ≡ ok m → (m.value ≡ v) × (is_valid v ≡ true)
unfolding make_msisdn
make_msisdn-value v m e = ground arith

-- A text that is read as a number gives a number of the form `+234` and ten more characters, which
-- is Nigerian, and which is read as itself.
pub from_string-canonical :
    (v : Text) (m : Msisdn)
    → from_string v ≡ ok m
    → (length m.value ≡ 14) × (is_nigerian m ≡ true) × (from_string m.value ≡ ok m)
unfolding from_string is_nigerian
from_string-canonical v m e =
    let (p, valid) = make_msisdn-value (normalize v) m e in
    let shape = normalize-IsE164 v valid in
    (
      ap length p ∙ shape.1,
      ap (starts_with (plus ∷ country)) p ∙ shape.0,
      ap from_string p ∙ (ap make_msisdn (normalize_idem v) ∙ e),
    )

local-shape :
    (d : Text)
    → digits_then_end 10 d ≡ true
    → IsClean d
    → normalize (b'0' ∷ d) ≡ (plus ∷ country) ++ d
unfolding normalize clean canonical is_space
local-shape d e h = ground (arith, clean_of_IsClean d h, digits_then_end-length 10 d h e)

bare-shape :
    (d : Text)
    → digits_then_end 10 d ≡ true
    → IsClean d
    → normalize (country ++ d) ≡ (plus ∷ country) ++ d
unfolding normalize clean canonical is_space
bare-shape d e h = ground (arith, clean_of_IsClean d h, digits_then_end-length 10 d h e)

full-shape : (d : Text) → IsClean d → normalize ((plus ∷ country) ++ d) ≡ (plus ∷ country) ++ d
unfolding normalize clean canonical is_space
full-shape d h = ground (arith, clean_of_IsClean d h)

make_msisdn_full :
    (d : Text)
    → digits_then_end 10 d ≡ true
    → make_msisdn ((plus ∷ country) ++ d) ≡ ok (record { value = (plus ∷ country) ++ d })
unfolding make_msisdn is_valid
make_msisdn_full d e = ground arith

-- Ten digits are read as the same number in the local form and in the two international ones.
pub from_string_formats :
    (d : Text)
    → digits_then_end 10 d ≡ true
    → IsClean d
    → (from_string (b'0' ∷ d) ≡ ok (record { value = (plus ∷ country) ++ d }))
      × (from_string (country ++ d) ≡ ok (record { value = (plus ∷ country) ++ d }))
      × (from_string ((plus ∷ country) ++ d) ≡ ok (record { value = (plus ∷ country) ++ d }))
unfolding from_string
from_string_formats d e h = (
  ap make_msisdn (local-shape d e h) ∙ make_msisdn_full d e,
  ap make_msisdn (bare-shape d e h) ∙ make_msisdn_full d e,
  ap make_msisdn (full-shape d h) ∙ make_msisdn_full d e,
)

-- The constructor takes a number without its `+`, which is then not Nigerian.
pub make_msisdn_bare :
    (d : Text)
    → digits_then_end 10 d ≡ true
    → (m : Msisdn) × (make_msisdn (country ++ d) ≡ ok m) × (is_nigerian m ≡ false)
unfolding make_msisdn is_valid is_nigerian
make_msisdn_bare d e = (record { value = country ++ d }, ground arith, ground arith)
