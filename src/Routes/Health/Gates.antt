-- ===== src/Routes/Health/Gates.antt =====
-- When src/edge/routes/health.py answers that the pod is ready.
use mathlib.Core.Path.{◌≡◌, refl}
use mathlib.Core.Logic.{◌⊎◌, inl, inr}
use mathlib.Core.Bool.{Bool, true, false}
use mathlib.Core.Option.{Option}
use trustmodel_edge.Prelude.Tests.{Bool-cases}
use trustmodel_edge.Policy.Cache.{PolicyCache, is_warm}
use trustmodel_edge.Heartbeat.{HeartbeatState}
use trustmodel_edge.Routes.Health.{is_revoked, health_ready}

-- Enrolled, not revoked and warm.
abbrev IsServing : Bool → Option HeartbeatState → PolicyCache → Type 0
IsServing enrollment_complete heartbeat cache =
    (enrollment_complete ≡ true) × (is_revoked heartbeat ≡ false) × (is_warm cache ≡ true)

-- Readiness is 200 just for a pod that is enrolled, not revoked and has a warm cache, and 503 for every
-- other pod.
pub health_ready-IsServing :
    (enrollment_complete : Bool) (heartbeat : Option HeartbeatState) (cache : PolicyCache)
    → (IsServing enrollment_complete heartbeat cache
        × ((health_ready enrollment_complete heartbeat cache).0 ≡ 200))
      ⊎ (¬ (IsServing enrollment_complete heartbeat cache)
          × ((health_ready enrollment_complete heartbeat cache).0 ≡ 503))
unfolding health_ready
health_ready-IsServing false heartbeat cache = inr (λ s. absurd (cc), refl)
health_ready-IsServing true heartbeat cache = elim (Bool-cases (is_revoked heartbeat)) [
  | inl r ↦ inr (λ s. absurd (cc), rw r)
  | inr r ↦ elim (Bool-cases (is_warm cache)) [
    | inl w ↦ inl ((refl, r, w), rw (r, w))
    | inr w ↦ inr (λ s. absurd (cc), rw (r, w))
  ]
]
