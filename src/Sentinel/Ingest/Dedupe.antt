-- ===== src/Sentinel/Ingest/Dedupe.antt =====
-- `CDRParser.deduplicate` (services/sip-processor/app/sentinel/parser.py).
use vox_guard.Base.{
  ℕ, ◌+◌, ◌≡◌, String, Bool, true, false, ◌&&◌, List, [], ◌∷◌, any, length, str_eq, ◌==◌,
  if◌then◌else◌, arith, eq_iff, Bool-cases, inl, inr,
}
use vox_guard.Sentinel.Records.{CallRecord}

-- Caller, callee and time.
abbrev pub Key : Type 0
Key = String × String × ℕ

abbrev pub key_of : CallRecord → Key
key_of r = (r.caller_number, r.callee_number, r.call_timestamp)

unfoldable pub key_eq : Key → Key → Bool
key_eq a b = (str_eq a.0 b.0 && str_eq a.1 b.1) && (a.2 == b.2)

abbrev pub is_seen : Key → List Key → Bool
is_seen k seen = any (key_eq k) seen

-- The loop: `seen` holds the keys so far.
unfoldable pub dedupe_from : List Key → List CallRecord → List CallRecord × ℕ
dedupe_from seen [] = ([], 0)
dedupe_from seen (r ∷ rs) =
    let known = is_seen (key_of r) seen in
    let (unique, duplicates) = dedupe_from (if known then seen else key_of r ∷ seen) rs in
    if known then (unique, duplicates + 1) else (r ∷ unique, duplicates)

unfoldable pub deduplicate : List CallRecord → List CallRecord × ℕ
unfolding dedupe_from
deduplicate records = dedupe_from [] records

pub key_eq_refl : (k : Key) → key_eq k k ≡ true
unfolding key_eq
key_eq_refl k = ground (arith, eq_iff k.0 k.0, eq_iff k.1 k.1)

pub eq_of_key_eq : (a b : Key) → key_eq a b ≡ true → a ≡ b
unfolding key_eq
eq_of_key_eq a b h = ground (arith, eq_iff a.0 b.0, eq_iff a.1 b.1)

pub dedupe_from-length :
    (seen : List Key) (rs : List CallRecord)
    → length (dedupe_from seen rs).0 + (dedupe_from seen rs).1 ≡ length rs
unfolding dedupe_from
dedupe_from-length seen [] = omega arith
dedupe_from-length seen (r ∷ rs) = elim (Bool-cases (is_seen (key_of r) seen)) [
  | inl known ↦ rw known (omega (arith, dedupe_from-length seen rs))
  | inr fresh ↦ rw fresh (omega (arith, dedupe_from-length (key_of r ∷ seen) rs))
]

-- Whether some record has the key.
abbrev pub has_key : Key → List CallRecord → Bool
has_key k rs = any (λ r. key_eq k (key_of r)) rs

-- No key among the records is in the list, and none comes twice.
abbrev pub AreDistinct : List Key → List CallRecord → Type 0
AreDistinct seen [] = Unit
AreDistinct seen (r ∷ rs) = (is_seen (key_of r) seen ≡ false) × AreDistinct (key_of r ∷ seen) rs

pub dedupe_from-AreDistinct :
    (seen : List Key) (rs : List CallRecord) → AreDistinct seen (dedupe_from seen rs).0
unfolding dedupe_from
dedupe_from-AreDistinct seen [] = tt
dedupe_from-AreDistinct seen (r ∷ rs) = elim (Bool-cases (is_seen (key_of r) seen)) [
  | inl known ↦ rw known (dedupe_from-AreDistinct seen rs)
  | inr fresh ↦ rw fresh (fresh, dedupe_from-AreDistinct (key_of r ∷ seen) rs)
]
