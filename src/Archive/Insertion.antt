-- ===== src/Archive/Insertion.antt =====
-- The insertion of restored rows (services/data-archival/archival_service.py). The statement says to do
-- nothing on a conflict: a table takes a row whose key none of its rows has.
use vox_guard.Base.{
  ℕ, ◌+◌, ◌≡◌, refl, String, Bool, false, some, List, [], ◌∷◌, map, count_if, arith, sym, ap, ◌∙◌,
}
use text.Mathlib.TextEquality.{eq_iff}
use text.Mathlib.TextPositions.{eq_refl}
use vox_guard.Base.Dict.{contains, HasUniqueKeys}
use vox_guard.Archive.Storage.{Row, Codec, ObjectStore, CompressionService}
use vox_guard.Archive.Service.{
  Database, ArchivalConfig, column_names, row_values, insert_all, insert_restored_records,
}

abbrev pub values_of : {V : Type 0} → Row V → List V
values_of [] = []
values_of (e ∷ r) = e.1 ∷ values_of r

abbrev pub HasColumns : {V : Type 0} → List String → Row V → Type 0
HasColumns columns r = (column_names r ≡ columns) × HasUniqueKeys r

abbrev pub HaveColumns : {V : Type 0} → List String → List (Row V) → Type 0
HaveColumns columns [] = Unit
HaveColumns columns (r ∷ rs) = HasColumns columns r × HaveColumns columns rs

-- Rows with other keys than those of `ds` and than each other, where `same_key` compares two rows.
abbrev pub AreFresh : {V : Type 0} → (Row V → Row V → Bool) → List (Row V) → List (Row V) → Type 0
AreFresh same_key [] ds = Unit
AreFresh same_key (r ∷ rs) ds = (count_if (same_key r) ds ≡ 0) × AreFresh same_key rs (r ∷ ds)

pub AreFresh-counts :
    {V : Type 0} (same_key : Row V → Row V → Bool) (rs ds es : List (Row V))
    → ((p : Row V → Bool) → count_if p es ≡ count_if p ds)
    → AreFresh same_key rs ds
    → AreFresh same_key rs es
AreFresh-counts same_key [] ds es h f = tt
AreFresh-counts same_key (r ∷ rs) ds es h (new, f) = (
  h (same_key r) ∙ new,
  AreFresh-counts same_key rs (r ∷ ds) (r ∷ es) (λ p. ground (arith, h p)) f,
)

-- What the statements do to a table with these columns: `rows` are its rows as JSON keeps them.
pub record IsTable {D V B : Type 0} (database : Database D V) (codec : Codec V B)
    (rows : D → List (Row V)) (same_key : Row V → Row V → Bool) (table : String)
    (columns : List String) : Type 0 where
  pub selects :
      (column : String) (cutoff limit : ℕ) (d : D) (rs : List (Row V))
      → database.select_before table column cutoff limit d ≡ some rs
      → HaveColumns columns (map codec.as_json rs)
  pub takes :
      (r : Row V) (d : D)
      → HasColumns columns r
      → count_if (same_key r) (rows d) ≡ 0
      → (n : ℕ) × (e : D) × (database.insert_row table columns (values_of r) d ≡ (some n, e))
        × ((p : Row V → Bool) → count_if p (rows e) ≡ count_if p (r ∷ rows d))
  pub commits : (d : D) → rows (database.commit d) ≡ rows d

-- A column that no other has the name of is not in the way.
row_values-skip :
    {V : Type 0} (k : String) (v : V) (r s : Row V)
    → contains k s ≡ false
    → row_values (column_names s) ((k, v) ∷ r) ≡ row_values (column_names s) r
row_values-skip k v r [] h = refl
row_values-skip k v r ((j, w) ∷ s) h =
    ground (arith, row_values-skip k v r s, eq_iff j k, eq_iff k j, h)

row_values-column_names :
    {V : Type 0} (r : Row V) → HasUniqueKeys r → row_values (column_names r) r ≡ some (values_of r)
row_values-column_names [] h = refl
row_values-column_names ((k, v) ∷ r) h =
    rw (eq_refl k, row_values-skip k v r r h.0, row_values-column_names r h.1) refl

module _ {D V B O : Type 0} (database : Database D V) (codec : Codec V B) (store : ObjectStore O B)
    (isoformat : ℕ → String) (config : ArchivalConfig) (service : CompressionService)
    (rows : D → List (Row V)) (same_key : Row V → Row V → Bool) (table : String)
    (columns : List String) (is_table : IsTable database codec rows same_key table columns) where
  -- The rows `rs` have been added to those of `d`.
  abbrev pub Added : List (Row V) → D → D → Type 0
  Added rs d e = (p : Row V → Bool) → count_if p (rows e) ≡ count_if p rs + count_if p (rows d)

  insert_all-Added :
      (rs : List (Row V)) (n : ℕ) (d : D)
      → HaveColumns columns rs
      → AreFresh same_key rs (rows d)
      → (k : ℕ) × (e : D) × (insert_all database codec store isoformat config service table columns
            rs n d
          ≡ (some k, e))
        × Added rs d e
  unfolding insert_all
  insert_all-Added [] n d h f =
      (n, database.commit d, refl, λ p. omega (arith, ap (count_if p) (is_table.commits d)))
  insert_all-Added (r ∷ rs) n d ((same, unique), hs) (new, f) =
      let (k, e, taken, adds) = is_table.takes r d (same, unique) new in
      let (l, end, ran, more) =
        insert_all-Added rs (n + k) e hs
          (AreFresh-counts same_key rs (r ∷ rows d) (rows e) adds f) in
      let found : row_values columns r ≡ some (values_of r) =
        ap (λ cs. row_values cs r) (sym same) ∙ row_values-column_names r unique in
      (l, end, rw (found, taken, insert_all) ran, λ p. ground (arith, adds p, more p))

  pub insert_restored_records-Added :
      (rs : List (Row V)) (d : D)
      → HaveColumns columns rs
      → AreFresh same_key rs (rows d)
      → (k : ℕ) × (e : D) × (insert_restored_records database codec store isoformat config service
            table rs d
          ≡ (some k, e))
        × Added rs d e
  unfolding insert_restored_records
  insert_restored_records-Added [] d h f = (0, d, refl, λ p. omega arith)
  insert_restored_records-Added (r ∷ rs) d h f =
      let (k, e, ran, adds) = insert_all-Added (r ∷ rs) 0 d h f in
      (
        k,
        e,
        ap (λ cs. insert_all database codec store isoformat config service table cs (r ∷ rs) 0 d)
              h.0.0
            ∙ ran,
        adds,
      )
