-- ===== src/Ml/Collector/Frames.antt =====
-- The operations of pandas that `DataCollector` uses on the rows of a frame
-- (services/ml-pipeline/data_collector.py).
use vox_guard.Base.{
  ◌≡◌, refl, Bool, true, false, ◌&&◌, ◌||◌, Option, none, some, List, [], ◌∷◌, any, if◌then◌else◌,
  arith, Bool-cases, inl, inr,
}

-- `df[test]`
unfoldable pub rows_where : {A : Type 0} → (A → Bool) → List A → List A
rows_where p [] = []
rows_where p (x ∷ xs) = let rest = rows_where p xs in if p x then x ∷ rest else rest

abbrev pub keep_some : {A : Type 0} → Option A → List A → List A
keep_some none xs = xs
keep_some (some x) xs = x ∷ xs

-- `df.dropna()`, where `complete` is a row without the missing values, if none is missing.
unfoldable pub dropna : {A B : Type 0} → (A → Option B) → List A → List B
dropna complete [] = []
dropna complete (x ∷ xs) = keep_some (complete x) (dropna complete xs)

module _ {A : Type 0} (eq : A → A → Bool) where
  abbrev pub has_row : A → List A → Bool
  has_row x rows = any (eq x) rows

  -- The rows that are not among `seen` and come for the first time.
  unfoldable pub drop_from : List A → List A → List A
  drop_from seen [] = []
  drop_from seen (x ∷ xs) =
      let known = has_row x seen in
      let rest = drop_from (if known then seen else x ∷ seen) xs in if known then rest else x ∷ rest

  -- `df.drop_duplicates()`
  unfoldable pub drop_duplicates : List A → List A
  unfolding drop_from
  drop_duplicates rows = drop_from [] rows

  -- No row comes twice, nor is in `seen`.
  abbrev pub AreDistinct : List A → List A → Type 0
  AreDistinct seen [] = Unit
  AreDistinct seen (x ∷ xs) = (has_row x seen ≡ false) × AreDistinct (x ∷ seen) xs

  pub drop_from-AreDistinct : (seen xs : List A) → AreDistinct seen (drop_from seen xs)
  unfolding drop_from
  drop_from-AreDistinct seen [] = tt
  drop_from-AreDistinct seen (x ∷ xs) = elim (Bool-cases (has_row x seen)) [
    | inl known ↦ rw known (drop_from-AreDistinct seen xs)
    | inr fresh ↦ rw fresh (fresh, drop_from-AreDistinct (x ∷ seen) xs)
  ]

  module _ (eq_sound : (x y : A) → eq x y ≡ true → x ≡ y) where
    pub has_row-drop_from :
        (y : A) (seen xs : List A)
        → (has_row y (drop_from seen xs) || has_row y seen) ≡ (has_row y xs || has_row y seen)
    unfolding drop_from
    has_row-drop_from y seen [] = refl
    has_row-drop_from y seen (x ∷ xs) = elim (Bool-cases (has_row x seen)) [
      | inl known ↦ rw known (ground (arith, has_row-drop_from y seen xs, eq_sound y x))
      | inr fresh ↦ rw fresh (ground (arith, has_row-drop_from y (x ∷ seen) xs))
    ]

    pub has_row-rows_where :
        (p : A → Bool) (y : A) (xs : List A) → has_row y (rows_where p xs) ≡ (p y && has_row y xs)
    unfolding rows_where
    has_row-rows_where p y [] = ground arith
    has_row-rows_where p y (x ∷ xs) = elim (Bool-cases (eq y x)) [
      | inl same ↦ rw (← eq_sound y x same) (ground (arith, has_row-rows_where p y xs))
      | inr other ↦ ground (arith, has_row-rows_where p y xs)
    ]
