-- ===== src/Domain/Result.antt =====
-- The errors that the domain raises (services/sip-processor/app/domain); their messages are left
-- out.
pub data Error : Type 0 where
  invalid_msisdn invalid_ip_address invalid_window invalid_threshold : Error
  already_flagged terminal_status : Error
  not_pending not_acknowledged already_resolved : Error
  alert_not_found unknown_resolution : Error

pub data Result {ℓ} (A : Type ℓ) : Type ℓ where
  ok : A → Result A
  err : Error → Result A

infixl 5 ◌>>=◌
abbrev pub ◌>>=◌ {ℓ κ} : {A : Type ℓ} {B : Type κ} → Result A → (A → Result B) → Result B
ok a >>= f = f a
err e >>= f = err e
