-- ===== src/Inference/Examples.antt =====
-- Two calls, and an engine whose booster says a third of the overlap.
use vox_guard.Base.{ℕ, ◌≤◌, ◌≡◌, refl, true, false, none, some, [], ◌∷◌, ◌/◌, inl, arith}
use vox_guard.Base.Int.{pos, negsuc}
use vox_guard.Inference.Features.{MaskingFeatures}
use vox_guard.Inference.Model.{Xgboost, missing, loadable}
use vox_guard.Inference.Engine.{default_threshold, predict_with_rules, predict_features, new_engine}
use vox_guard.Inference.Rules.{predict_with_rules_mono, callers_alone}
use vox_guard.Inference.Operation.{
  updating, reloading, run_commands, view_commands, view_predict, predict_features-view_commands,
}

abbrev call_with : ℕ → ℕ → ℕ → MaskingFeatures
call_with callers overlap mismatch = record {
  asr = 500000;
  aloc = 600000;
  overlap_ratio = overlap;
  cli_mismatch = mismatch;
  distinct_a_count = callers;
  call_rate = 10000;
  short_call_ratio = 0;
  high_volume_flag = 0;
}

predict_with_rules_mono_example :
    ((predict_with_rules 7000 (call_with 5 6000 0)).probability
      ≤ (predict_with_rules 7000 (call_with 9 9000 0)).probability)
    × ((predict_with_rules 7000 (call_with 9 9000 0)).probability ≤ 10000)
    × ((predict_with_rules 7000 (call_with 5 6000 0)).is_masking ≡ true
        → (predict_with_rules 7000 (call_with 9 9000 0)).is_masking ≡ true)
predict_with_rules_mono_example =
    predict_with_rules_mono 7000 (call_with 5 6000 0) (call_with 9 9000 0) (record {
      answers = omega arith;
      overlap = omega arith;
      mismatch = omega arith;
      callers = omega arith;
      rate = omega arith;
    })

callers_alone_example :
    (predict_with_rules default_threshold (call_with 900 5000 0)).is_masking ≡ false
callers_alone_example = callers_alone (call_with 900 5000 0) (omega arith) refl (inl (omega arith))

abbrev library : Xgboost ℕ
library = record { is_available = true; predicts = λ b f. some (f.overlap_ratio / b) }

predict_features-view_commands_example :
    (predict_features library
        (run_commands library
          (updating (pos 2000) ∷ updating (negsuc 5) ∷ reloading missing ∷ [])
          (new_engine library 7000 (loadable 3)))
        (call_with 5 6000 0)
      ≡ view_predict library
          (record { threshold = 2000; booster = none; loaded = some 3 })
          (call_with 5 6000 0))
    × ((run_commands library
          (updating (pos 2000) ∷ updating (negsuc 5) ∷ reloading missing ∷ [])
          (new_engine library 7000 (loadable 3))).model_manager.model
        ≡ some 3)
unfolding view_commands
predict_features-view_commands_example =
    predict_features-view_commands library 7000 (loadable 3)
      (updating (pos 2000) ∷ updating (negsuc 5) ∷ reloading missing ∷ []) (call_with 5 6000 0)
