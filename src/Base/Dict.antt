-- ===== src/Base/Dict.antt =====
-- A Python dict with text keys, in insertion order: an association list.
use Prim.Native.String.{String}
use mathlib.Core.Path.{◌≡◌, refl}
use mathlib.Core.Logic.{◌≢◌}
use mathlib.Core.Bool.{Bool, true, false}
use mathlib.Core.Option.{Option, none, some}
use mathlib.Core.List.{List, [], ◌∷◌}
use native.Mathlib.Omega.{arith}
use text.Mathlib.Text.{◌==◌}
use text.Mathlib.TextEquality.{eq_iff}
use text.Mathlib.TextPositions.{eq_refl}
use vox_guard.Base.Tests.{if◌then◌else◌}

abbrev pub Dict {ℓ} : Type ℓ → Type ℓ
Dict V = List (String × V)

module _ {ℓ} {V : Type ℓ} where
  -- `d.get(k)`
  abbrev pub lookup : String → Dict V → Option V
  lookup k [] = none
  lookup k (e ∷ d) = if e.0 == k then some e.1 else lookup k d

  -- `k in d`
  abbrev pub contains : String → Dict V → Bool
  contains k d = elim (lookup k d) [ none ↦ false | some _ ↦ true ]

  -- `d[k] = v`: a key that is present keeps its place.
  abbrev pub insert : String → V → Dict V → Dict V
  insert k v [] = (k, v) ∷ []
  insert k v (e ∷ d) = if e.0 == k then (e.0, v) ∷ d else e ∷ insert k v d

  -- `del d[k]`, `d.pop(k, None)`
  abbrev pub erase : String → Dict V → Dict V
  erase k [] = []
  erase k (e ∷ d) = if e.0 == k then d else e ∷ erase k d

  pub lookup-insert :
      (k j : String) (v : V) (d : Dict V)
      → lookup j (insert k v d) ≡ (if k == j then some v else lookup j d)
  lookup-insert k j v [] = refl
  lookup-insert k j v (e ∷ d) =
      ground (arith, eq_iff k j, eq_iff e.0 k, eq_iff e.0 j, lookup-insert k j v d)

  pub lookup-insert_self : (k : String) (v : V) (d : Dict V) → lookup k (insert k v d) ≡ some v
  lookup-insert_self k v d = simp (lookup-insert, eq_refl)

  pub lookup-insert_ne :
      (k j : String) (v : V) (d : Dict V) → k ≢ j → lookup j (insert k v d) ≡ lookup j d
  lookup-insert_ne k j v d h = ground (arith, lookup-insert k j v d, eq_iff k j)

  -- No key is listed twice.
  abbrev pub HasUniqueKeys : Dict V → Type 0
  HasUniqueKeys [] = Unit
  HasUniqueKeys (e ∷ d) = (contains e.0 d ≡ false) × HasUniqueKeys d

  pub lookup-erase_ne : (k j : String) (d : Dict V) → k ≢ j → lookup j (erase k d) ≡ lookup j d
  lookup-erase_ne k j [] h = refl
  lookup-erase_ne k j (e ∷ d) h =
      ground (arith, eq_iff e.0 k, eq_iff e.0 j, lookup-erase_ne k j d h)

  pub insert-HasUniqueKeys :
      (k : String) (v : V) (d : Dict V) → HasUniqueKeys d → HasUniqueKeys (insert k v d)
  insert-HasUniqueKeys k v [] h = (refl, tt)
  insert-HasUniqueKeys k v (e ∷ d) h =
      ground
        (arith, insert-HasUniqueKeys k v d h.1, lookup-insert k e.0 v d, eq_iff e.0 k, eq_iff k e.0)

  pub lookup-erase_self : (k : String) (d : Dict V) → HasUniqueKeys d → lookup k (erase k d) ≡ none
  lookup-erase_self k [] h = refl
  lookup-erase_self k (e ∷ d) h = ground (arith, eq_iff e.0 k, lookup-erase_self k d h.1)

  pub erase-HasUniqueKeys : (k : String) (d : Dict V) → HasUniqueKeys d → HasUniqueKeys (erase k d)
  erase-HasUniqueKeys k [] h = tt
  erase-HasUniqueKeys k (e ∷ d) h =
      ground
        (arith, eq_iff e.0 k, erase-HasUniqueKeys k d h.1, lookup-erase_ne k e.0 d, eq_iff k e.0)
