-- ===== src/Sentinel/Cache/Refinement.antt =====
-- The cache against what it promises: a map whose values expire.
use vox_guard.Base.{
  ℕ, ◌+◌, ◌≤◌, ◌≡◌, refl, String, true, Option, none, some, List, [], ◌∷◌, ltb, str_eq, eq_iff,
  if◌then◌else◌, arith, Bool-cases, inl, inr, ap, ◌∙◌,
}
use vox_guard.Base.Dict.{
  lookup, erase, lookup-insert, lookup-erase_self, lookup-erase_ne, HasUniqueKeys,
  insert-HasUniqueKeys, erase-HasUniqueKeys,
}
use vox_guard.Sentinel.Cache.Defs.{
  SimpleCache, new_cache, get, get_found, set, delete, clear, ttl_or,
}

pub data Op (V : Type 0) : Type 0 where
  getting : String → Op V
  setting : String → V → Option ℕ → Op V
  deleting : String → Op V
  clearing : Op V

-- A call and the time at which it reads the clock.
abbrev pub Timed : Type 0 → Type 0
Timed V = Op V × ℕ

-- The specification: what was set last under each key, and when it expires.
abbrev pub Spec : Type 0 → Type 0
Spec V = String → Option (V × ℕ)

module _ {V : Type 0} where
  abbrev pub alive : Option (V × ℕ) → ℕ → Option V
  alive none now = none
  alive (some (value, expires_at)) now = if ltb expires_at now then none else some value

  abbrev pub update : String → Option (V × ℕ) → Spec V → Spec V
  update key v m k = if str_eq key k then v else m k

  -- The answers of a sequence of calls, and the state after it.
  abbrev pub answer : Op V → ℕ → SimpleCache V → Option V × SimpleCache V
  answer (getting key) now c = get key now c
  answer (setting key v ttl) now c = (none, set key v ttl now c)
  answer (deleting key) now c = (none, delete key c)
  answer clearing now c = (none, clear c)

  abbrev pub answer_spec : ℕ → Op V → ℕ → Spec V → Option V × Spec V
  answer_spec ttl (getting key) now m = (alive (m key) now, m)
  answer_spec ttl (setting key v t) now m = (none, update key (some (v, now + ttl_or ttl t)) m)
  answer_spec ttl (deleting key) now m = (none, update key none m)
  answer_spec ttl clearing now m = (none, λ k. none)

  abbrev pub answers : List (Timed V) → SimpleCache V → List (Option V)
  answers [] c = []
  answers (o ∷ os) c = let (a, d) = answer o.0 o.1 c in a ∷ answers os d

  abbrev pub answers_spec : ℕ → List (Timed V) → Spec V → List (Option V)
  answers_spec ttl [] m = []
  answers_spec ttl (o ∷ os) m = let (a, n) = answer_spec ttl o.0 o.1 m in a ∷ answers_spec ttl os n

  -- The clock does not go back.
  abbrev pub IsOrdered : ℕ → List (Timed V) → Type 0
  IsOrdered t [] = Unit
  IsOrdered t (o ∷ os) = (t ≤ o.1) × IsOrdered o.1 os

  -- From `t` on, the cache and the map show the same values.
  record Agrees (ttl t : ℕ) (c : SimpleCache V) (m : Spec V) : Type 0 where
    unique : HasUniqueKeys c.cache
    ttl_kept : c.default_ttl ≡ ttl
    shows : (k : String) (u : ℕ) → t ≤ u → alive (lookup k c.cache) u ≡ alive (m k) u

  set-Agrees :
      (ttl t now : ℕ) (key : String) (v : V) (o : Option ℕ) (c : SimpleCache V) (m : Spec V)
      → t ≤ now
      → Agrees ttl t c m
      → Agrees ttl now (set key v o now c) (update key (some (v, now + ttl_or ttl o)) m)
  unfolding set
  set-Agrees ttl t now key v o c m le h = record {
    unique = insert-HasUniqueKeys key (v, now + ttl_or c.default_ttl o) c.cache h.unique;
    ttl_kept = h.ttl_kept;
    shows = λ k u le'. ground (
      arith,
      h.ttl_kept,
      h.shows k u,
      lookup-insert key k (v, now + ttl_or c.default_ttl o) c.cache,
    );
  }

  erase-Agrees :
      (ttl t now : ℕ) (key : String) (c d : SimpleCache V) (m : Spec V)
      → t ≤ now
      → Agrees ttl t c m
      → d.cache ≡ erase key c.cache
      → d.default_ttl ≡ c.default_ttl
      → Agrees ttl now d (update key none m)
  erase-Agrees ttl t now key c d m le h p q = record {
    unique = rw p (erase-HasUniqueKeys key c.cache h.unique);
    ttl_kept = q ∙ h.ttl_kept;
    shows = λ k u le'. rw p (
        ground (
          arith,
          eq_iff key k,
          h.shows k u,
          lookup-erase_self key c.cache,
          h.unique,
          lookup-erase_ne key k c.cache,
        ));
  }

  later-Agrees :
      (ttl t now : ℕ) (c d : SimpleCache V) (m : Spec V)
      → t ≤ now
      → Agrees ttl t c m
      → d.cache ≡ c.cache
      → d.default_ttl ≡ c.default_ttl
      → Agrees ttl now d m
  later-Agrees ttl t now c d m le h p q = record {
    unique = rw p h.unique;
    ttl_kept = q ∙ h.ttl_kept;
    shows = λ k u le'. rw p (ground (arith, h.shows k u));
  }

  -- An expired value may go: the map does not show it any more either.
  expire-Agrees :
      (ttl t now : ℕ) (key : String) (v : V) (e : ℕ) (c d : SimpleCache V) (m : Spec V)
      → t ≤ now
      → Agrees ttl t c m
      → lookup key c.cache ≡ some (v, e)
      → ltb e now ≡ true
      → d.cache ≡ erase key c.cache
      → d.default_ttl ≡ c.default_ttl
      → Agrees ttl now d m
  expire-Agrees ttl t now key v e c d m le h found old p q = record {
    unique = rw p (erase-HasUniqueKeys key c.cache h.unique);
    ttl_kept = q ∙ h.ttl_kept;
    shows = λ k u le'. rw p (gone k u le');
  }
    where
      hidden : (u : ℕ) → now ≤ u → alive (lookup key c.cache) u ≡ none
      hidden u le' = rw found (ground arith)

      gone : (k : String) (u : ℕ) → now ≤ u → alive (lookup k (erase key c.cache)) u ≡ alive (m k) u
      gone k u le' = elim (Bool-cases (str_eq key k)) [
        | inl same ↦
            let is : key ≡ k = (eq_iff key k).0 same in
            rw (← is)
              (ground (arith, lookup-erase_self key c.cache h.unique, hidden u le', h.shows key u))
        | inr other ↦ ground (arith, lookup-erase_ne key k c.cache, eq_iff key k, h.shows k u)
      ]

  get_found-Agrees :
      (ttl t now : ℕ) (key : String) (o : Option (V × ℕ)) (c : SimpleCache V) (m : Spec V)
      → t ≤ now
      → Agrees ttl t c m
      → lookup key c.cache ≡ o
      → ((get_found key now o c).0 ≡ alive (m key) now) × Agrees ttl now (get_found key now o c).1 m
  get_found-Agrees ttl t now key none c m le h found =
      (ground (arith, h.shows key now), later-Agrees ttl t now c _ m le h refl refl)
  get_found-Agrees ttl t now key (some (v, e)) c m le h found = elim (Bool-cases (ltb e now)) [
    | inl old ↦ rw old (
      ground (arith, h.shows key now),
      expire-Agrees ttl t now key v e c _ m le h found old refl refl,
    )
    | inr fresh ↦
        rw fresh (ground (arith, h.shows key now), later-Agrees ttl t now c _ m le h refl refl)
  ]

  answers-Agrees :
      (ttl t : ℕ) (os : List (Timed V)) (c : SimpleCache V) (m : Spec V)
      → IsOrdered t os
      → Agrees ttl t c m
      → answers os c ≡ answers_spec ttl os m
  unfolding get delete clear
  answers-Agrees ttl t [] c m le h = refl
  answers-Agrees ttl t ((getting key, now) ∷ os) c m le h =
      let (same, then_on) = get_found-Agrees ttl t now key (lookup key c.cache) c m le.0 h refl in
      cc (same, answers-Agrees ttl now os (get key now c).1 m le.1 then_on)
  answers-Agrees ttl t ((setting key v o, now) ∷ os) c m le h =
      ap (λ l. none ∷ l)
        (answers-Agrees ttl now os (set key v o now c) _ le.1
          (set-Agrees ttl t now key v o c m le.0 h))
  answers-Agrees ttl t ((deleting key, now) ∷ os) c m le h =
      ap (λ l. none ∷ l)
        (answers-Agrees ttl now os (delete key c) _ le.1
          (erase-Agrees ttl t now key c (delete key c) m le.0 h refl refl))
  answers-Agrees ttl t ((clearing, now) ∷ os) c m le h =
      ap (λ l. none ∷ l)
        (answers-Agrees ttl now os (clear c) (λ k. none) le.1
          (record { unique = tt; ttl_kept = h.ttl_kept; shows = λ k u le'. refl }))

-- A new cache answers any sequence of calls, with a clock that does not go back, as the map does
-- that keeps for each key what was set last and shows it until it expires: what the cache drops
-- by itself is never missed.
pub answers-new_cache :
    {V : Type 0} (ttl t : ℕ) (os : List (Timed V))
    → IsOrdered t os
    → answers os (new_cache ttl) ≡ answers_spec ttl os (λ k. none)
unfolding new_cache
answers-new_cache ttl t os le =
    answers-Agrees ttl t os (new_cache ttl) (λ k. none) le
      (record { unique = tt; ttl_kept = refl; shows = λ k u le'. refl })
