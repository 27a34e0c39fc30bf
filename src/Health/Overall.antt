-- ===== src/Health/Overall.antt =====
-- The status of the whole as a function of the components
-- (services/voice-switch/health_check.py, `determine_overall_status`).
use vox_guard.Base.{
  ℕ, ◌+◌, ◌≤◌, ◌≡◌, refl, Bool, true, false, List, [], ◌∷◌, arith, leb, if◌then◌else◌, count_if,
  any, ap, ◌∙◌, ◌&&◌, not,
}
use mathlib.Core.List.{Perm, Permᴰ}
use mathlib.Core.Logic.{∥∥₁_elim}
use vox_guard.Health.Status.{
  HealthStatus, healthy, degraded, unhealthy, is_healthy, is_degraded, is_unhealthy,
  ComponentHealth, is_critical, is_critical_failure, determine_overall_status,
}

abbrev pub is_impaired : ComponentHealth → Bool
is_impaired c = not (is_healthy c.status)

abbrev grade : ℕ → HealthStatus
grade n = if leb 2 n then unhealthy else if leb 1 n then degraded else healthy

-- The status by one count: of the components that are not healthy, where a failure of a critical
-- one weighs as much as two.
abbrev pub weight : ComponentHealth → ℕ
weight c = if is_critical c.name && is_unhealthy c.status then 2 else if is_impaired c then 1 else 0

abbrev pub load : List ComponentHealth → ℕ
load [] = 0
load (c ∷ cs) = weight c + load cs

abbrev pub is_bad : ComponentHealth → Bool
is_bad c = is_unhealthy c.status

abbrev pub is_poor : ComponentHealth → Bool
is_poor c = is_degraded c.status

-- What the loop and the two counts of the source amount to.
load-counts :
    (cs : List ComponentHealth)
    → (any is_critical_failure cs ≡ true → 2 ≤ load cs)
      × (any is_critical_failure cs ≡ false → load cs ≡ count_if is_bad cs + count_if is_poor cs)
unfolding is_critical_failure
load-counts [] = ground arith
load-counts (c ∷ cs) = ground (arith, load-counts cs)

-- The overall status is unhealthy exactly if the components that are not healthy weigh two or
-- more, where an unhealthy database or cache weighs two and any other impaired component one; it
-- is degraded if they weigh one; and healthy if they all are.
pub determine_overall_status-load :
    (cs : List ComponentHealth)
    → determine_overall_status cs
      ≡ (if leb 2 (load cs) then unhealthy else if leb 1 (load cs) then degraded else healthy)
unfolding determine_overall_status
determine_overall_status-load cs = ground (arith, load-counts cs)

abbrev pub rank : HealthStatus → ℕ
rank healthy = 0
rank degraded = 1
rank unhealthy = 2

-- The same components, each with the same status or a worse one.
pub data Worsens : List ComponentHealth → List ComponentHealth → Type 0 where
  none_left : Worsens [] []
  worse :
      {c d : ComponentHealth} {cs ds : List ComponentHealth}
      → c.name ≡ d.name
      → rank c.status ≤ rank d.status
      → Worsens cs ds
      → Worsens (c ∷ cs) (d ∷ ds)

weight_mono :
    (c d : ComponentHealth) → c.name ≡ d.name → rank c.status ≤ rank d.status → weight c ≤ weight d
weight_mono c d e h = ground arith

load_mono : {cs ds : List ComponentHealth} → Worsens cs ds → load cs ≤ load ds
load_mono none_left = omega arith
load_mono (worse {c = c} {d = d} e h w) = omega (arith, weight_mono c d e h, load_mono w)

-- If every component keeps its status or gets a worse one, the overall status does not improve.
pub determine_overall_status_mono :
    (cs ds : List ComponentHealth)
    → Worsens cs ds
    → rank (determine_overall_status cs) ≤ rank (determine_overall_status ds)
determine_overall_status_mono cs ds w =
    rw (determine_overall_status-load cs, determine_overall_status-load ds)
      (ground (arith, load_mono w))

load-permᴰ : {cs ds : List ComponentHealth} → Permᴰ cs ds → load cs ≡ load ds
load-permᴰ Permᴰ.nil = refl
load-permᴰ (Permᴰ.cons e p) = cc (ap weight e, load-permᴰ p)
load-permᴰ (Permᴰ.swap {l = l} e f) = omega (arith, ap weight e, ap weight f)
load-permᴰ (Permᴰ.trans p q) = load-permᴰ p ∙ load-permᴰ q

HealthStatus-set : IsSet HealthStatus
HealthStatus-set = hlevel

-- The overall status does not depend on the order of the components.
pub determine_overall_status-perm :
    (cs ds : List ComponentHealth)
    → Perm cs ds
    → determine_overall_status cs ≡ determine_overall_status ds
determine_overall_status-perm cs ds p =
    ∥∥₁_elim p (HealthStatus-set _ _)
      (λ q. rw (determine_overall_status-load cs, determine_overall_status-load ds, load-permᴰ q))
