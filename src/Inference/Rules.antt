-- ===== src/Inference/Rules.antt =====
-- When the rules flag a call (services/sip-processor/app/inference/engine.py).
use vox_guard.Base.{
  ℕ, ◌+◌, ◌≤◌, ◌≡◌, ◌⊎◌, inl, inr, true, false, ◌&&◌, leb, ltb, min, if◌then◌else◌, arith,
}
use vox_guard.Inference.Features.{MaskingFeatures}
use vox_guard.Inference.Engine.{default_threshold, rule_score, predict_with_rules}

-- The second features are at least as suspicious as the first in all that the rules read.
pub record IsLess (f g : MaskingFeatures) : Type 0 where
  pub answers : g.asr ≤ f.asr
  pub overlap : f.overlap_ratio ≤ g.overlap_ratio
  pub mismatch : f.cli_mismatch ≤ g.cli_mismatch
  pub callers : f.distinct_a_count ≤ g.distinct_a_count
  pub rate : f.call_rate ≤ g.call_rate

flagged_mono : (t a b : ℕ) → a ≤ b → leb t (min a 10000) ≡ true → leb t (min b 10000) ≡ true
flagged_mono t a b le flagged = ground arith

add_mono : {a b c d : ℕ} → a ≤ b → c ≤ d → a + c ≤ b + d
add_mono le le' = omega arith

overlap_mono :
    (a b : ℕ)
    → a ≤ b
    → (if ltb 8000 a then 3000 else if ltb 5000 a then 1500 else 0)
      ≤ (if ltb 8000 b then 3000 else if ltb 5000 b then 1500 else 0)
overlap_mono a b le = ground arith

at_least_mono : (v k a b : ℕ) → a ≤ b → (if leb k a then v else 0) ≤ (if leb k b then v else 0)
at_least_mono v k a b le = ground arith

above_mono : (v k a b : ℕ) → a ≤ b → (if ltb k a then v else 0) ≤ (if ltb k b then v else 0)
above_mono v k a b le = ground arith

mismatch_mono :
    (v k a b c d : ℕ)
    → a ≤ b
    → c ≤ d
    → (if ltb 0 a && leb k c then v else 0) ≤ (if ltb 0 b && leb k d then v else 0)
mismatch_mono v k a b c d le le' = ground arith

answers_mono :
    (v m k a b c d : ℕ)
    → b ≤ a
    → c ≤ d
    → (if ltb a m && leb k c then v else 0) ≤ (if ltb b m && leb k d then v else 0)
answers_mono v m k a b c d le le' = ground arith

rule_score_mono : (f g : MaskingFeatures) → IsLess f g → rule_score f ≤ rule_score g
unfolding rule_score
rule_score_mono f g less =
    add_mono
      (add_mono
        (add_mono
          (add_mono (at_least_mono 5000 5 _ _ less.callers)
            (overlap_mono f.overlap_ratio g.overlap_ratio less.overlap))
          (mismatch_mono 2000 3 _ _ _ _ less.mismatch less.callers))
        (above_mono 1000 20000 _ _ less.rate))
      (answers_mono 1000 200000 4 _ _ _ _ less.answers less.callers)

-- Fewer answers, more overlap, more mismatch, more callers or a higher rate never lower the
-- probability that the rules give, which is at most 1, and never clear a call that is flagged.
pub predict_with_rules_mono :
    (threshold : ℕ) (f g : MaskingFeatures)
    → IsLess f g
    → ((predict_with_rules threshold f).probability ≤ (predict_with_rules threshold g).probability)
      × ((predict_with_rules threshold g).probability ≤ 10000)
      × ((predict_with_rules threshold f).is_masking ≡ true
          → (predict_with_rules threshold g).is_masking ≡ true)
unfolding predict_with_rules
predict_with_rules_mono threshold f g less =
    let more = rule_score_mono f g less in
    (omega (arith, more), omega arith, flagged_mono threshold _ _ more)

-- At the threshold that the engine has by default, the rules flag no call to a number that fewer
-- than four different callers have called.
pub predict_with_rules-flags :
    (f : MaskingFeatures)
    → (predict_with_rules default_threshold f).is_masking ≡ true
    → 4 ≤ f.distinct_a_count
unfolding predict_with_rules rule_score
predict_with_rules-flags f flagged = ground (arith, flagged)

-- At the default threshold the number of callers, however large, flags no call by itself: it is not flagged
-- if the overlap is at most a half, there is no mismatch, and not both of the other two rules apply.
pub callers_alone :
    (f : MaskingFeatures)
    → f.overlap_ratio ≤ 5000
    → f.cli_mismatch ≡ 0
    → (f.call_rate ≤ 20000) ⊎ (200000 ≤ f.asr)
    → (predict_with_rules default_threshold f).is_masking ≡ false
unfolding predict_with_rules rule_score
callers_alone f overlap mismatch (inl rate) = ground arith
callers_alone f overlap mismatch (inr answers) = ground arith
