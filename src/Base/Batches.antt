-- ===== src/Base/Batches.antt =====
-- `[items[i:i + n] for i in range(0, len(items), n)]`
use Prim.Native.Nat.{ℕ, zero, suc, ◌≤◌, ◌<◌}
use mathlib.Core.Path.{◌≡◌, refl, ap, ◌∙◌}
use mathlib.Core.List.{List, [], ◌∷◌, ◌++◌}
use native.Mathlib.Omega.{arith}
use vox_guard.Base.Lists.{length, All}

module _ {ℓ} {A : Type ℓ} where
  abbrev pub take : ℕ → List A → List A
  take zero xs = []
  take (suc n) [] = []
  take (suc n) (x ∷ xs) = x ∷ take n xs

  abbrev pub drop : ℕ → List A → List A
  drop zero xs = xs
  drop (suc n) [] = []
  drop (suc n) (x ∷ xs) = drop n xs

  abbrev pub concat : List (List A) → List A
  concat [] = []
  concat (xs ∷ xss) = xs ++ concat xss

  -- The fuel is a bound on the number of slices; the length of the list is enough.
  pub slices : ℕ → ℕ → List A → List (List A)
  slices zero n xs = []
  slices (suc fuel) n [] = []
  slices (suc fuel) n (x ∷ xs) = take n (x ∷ xs) ∷ slices fuel n (drop n (x ∷ xs))

  unfoldable pub batches : ℕ → List A → List (List A)
  unfolding slices
  batches n xs = slices (length xs) n xs

  pub take-append-drop : (n : ℕ) (xs : List A) → take n xs ++ drop n xs ≡ xs
  take-append-drop zero xs = refl
  take-append-drop (suc n) [] = refl
  take-append-drop (suc n) (x ∷ xs) = ap (λ l. x ∷ l) (take-append-drop n xs)

  pub length-drop-le : (n : ℕ) (xs : List A) → length (drop n xs) ≤ length xs
  length-drop-le zero xs = omega arith
  length-drop-le (suc n) [] = omega arith
  length-drop-le (suc n) (x ∷ xs) = omega (arith, length-drop-le n xs)

  pub length-take-le : (n : ℕ) (xs : List A) → length (take n xs) ≤ n
  length-take-le zero xs = omega arith
  length-take-le (suc n) [] = omega arith
  length-take-le (suc n) (x ∷ xs) = omega (arith, length-take-le n xs)

  concat-slices :
      (fuel n : ℕ) (xs : List A) → length xs ≤ fuel → concat (slices fuel (suc n) xs) ≡ xs
  unfolding slices
  concat-slices zero n [] h = refl
  concat-slices zero n (x ∷ xs) h = absurd (omega arith)
  concat-slices (suc fuel) n [] h = refl
  concat-slices (suc fuel) n (x ∷ xs) h =
      ap (λ l. take (suc n) (x ∷ xs) ++ l)
        (concat-slices fuel n (drop (suc n) (x ∷ xs)) (omega (arith, length-drop-le n xs)))
      ∙ take-append-drop (suc n) (x ∷ xs)

  pub concat-batches : (n : ℕ) (xs : List A) → concat (batches (suc n) xs) ≡ xs
  unfolding batches
  concat-batches n xs = concat-slices (length xs) n xs (omega arith)

  slices-length :
      (fuel n : ℕ) (xs : List A)
      → All (λ b. (0 < length b) × (length b ≤ suc n)) (slices fuel (suc n) xs)
  unfolding slices
  slices-length zero n xs = tt
  slices-length (suc fuel) n [] = tt
  slices-length (suc fuel) n (x ∷ xs) =
      ((omega arith, length-take-le (suc n) (x ∷ xs)), slices-length fuel n (drop (suc n) (x ∷ xs)))

  pub batches-length :
      (n : ℕ) (xs : List A) → All (λ b. (0 < length b) × (length b ≤ suc n)) (batches (suc n) xs)
  unfolding batches
  batches-length n xs = slices-length (length xs) n xs
