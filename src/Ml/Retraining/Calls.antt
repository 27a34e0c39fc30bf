-- ===== src/Ml/Retraining/Calls.antt =====
-- How Python binds the arguments of a call to the parameters of a method, for the methods that the
-- retraining pipeline calls on the trainer, the evaluator and the registry.
use vox_guard.Base.{ℕ, String, Bool, true, ◌&&◌, List, [], ◌∷◌, any, length, leb, str_eq}
use vox_guard.Base.Batches.{take, drop}

-- The names of the parameters after `self`; those after the first `required` have a default.
pub record Signature : Type 0 where
  pub params : List String
  pub required : ℕ

-- `ModelTrainer.train`
abbrev pub train_signature : Signature
train_signature = record { params = "dtrain" ∷ "dval" ∷ "early_stopping_rounds" ∷ []; required = 2 }

-- `ModelEvaluator.evaluate`
abbrev pub evaluate_signature : Signature
evaluate_signature = record { params = "y_true" ∷ "y_pred_proba" ∷ []; required = 2 }

-- `ModelRegistry.register_model`
abbrev pub register_signature : Signature
register_signature = record { params = "model_path" ∷ "metadata" ∷ []; required = 2 }

abbrev pub is_among : String → List String → Bool
is_among name names = any (str_eq name) names

-- Each of the names is among the others.
abbrev pub are_among : List String → List String → Bool
are_among [] others = true
are_among (n ∷ ns) others = is_among n others && are_among ns others

-- Whether a call with `n` positional arguments and these keywords is accepted; where not, it is a
-- `TypeError`.
unfoldable pub binds : Signature → ℕ → List String → Bool
binds s n keywords =
    leb n (length s.params)
    && are_among keywords (drop n s.params)
    && are_among (drop n (take s.required s.params)) keywords
