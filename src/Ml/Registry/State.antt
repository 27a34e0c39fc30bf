-- ===== src/Ml/Registry/State.antt =====
-- The registry's index and its files (services/ml-pipeline/model_registry.py). Scores are fractions
-- in units of 1/10000. The index's `last_updated`, which is written and never read, is left out.
use vox_guard.Base.{ℕ, String, Option, none, some, List}
use vox_guard.Base.Dict.{Dict}

pub record ModelMetadata : Type 0 where
  pub model_id : String
  pub version : String
  pub created_at : String
  pub algorithm : String
  pub training_samples : ℕ
  pub auc_score : ℕ
  pub precision : ℕ
  pub recall : ℕ
  pub f1_score : ℕ
  pub accuracy : ℕ
  pub features : List String
  pub feature_importance : Dict ℕ
  pub hyperparameters : Dict String
  pub status : String
  pub deployed_at : Option String
  pub replaced_by : Option String
  pub production_metrics : Option (Dict ℕ)

-- An entry of `index["models"]`; `deployed_at` is `none` while the key is missing.
pub record IndexEntry : Type 0 where
  pub version : String
  pub created_at : String
  pub status : String
  pub auc_score : ℕ
  pub model_path : String
  pub deployed_at : Option String

pub record Index : Type 0 where
  pub models : Dict IndexEntry
  pub champion : Option String

-- The directory of one model: the suffixes of its files `model<suffix>`, in the order that the file
-- system lists them, and `metadata.json`, if it is there.
pub record ModelDir : Type 0 where
  pub suffixes : List String
  pub metadata : Option ModelMetadata

-- `index_file` is what `registry_index.json` holds.
pub record ModelRegistry : Type 0 where
  pub index : Index
  pub index_file : Option Index
  pub disk : Dict ModelDir

-- A method returns a value or raises an `OSError`; what it wrote before stays written.
abbrev pub Action : Type 0 → Type 0
Action A = ModelRegistry → Option A × ModelRegistry

abbrev pub pure : {A : Type 0} → A → Action A
pure a r = (some a, r)

infixl 5 ◌>>=◌ ◌>>◌
abbrev pub ◌>>=◌ : {A B : Type 0} → Action A → (A → Action B) → Action B
◌>>=◌ m f r = let (o, s) = m r in elim o [ none ↦ (none, s) | some a ↦ f a s ]

abbrev pub ◌>>◌ : {A B : Type 0} → Action A → Action B → Action B
m >> k = m >>= λ _. k
