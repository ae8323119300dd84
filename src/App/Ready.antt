-- ===== src/App/Ready.antt =====
-- When a pod of src/edge/app.py answers that it is ready.
use Prim.Native.Nat.{ℕ}
use Prim.Native.Char.{Char}
use Prim.Native.String.{String}
use mathlib.Core.Path.{◌≡◌, refl, sym, subst}
use mathlib.Core.Logic.{inl, inr}
use mathlib.Core.Bool.{Bool, true, false}
use mathlib.Core.Option.{Option}
use trustmodel_edge.Value.{Value, PyText}
use trustmodel_edge.Config.{Settings}
use trustmodel_edge.Policy.Bundle.{AuthorizedClient}
use trustmodel_edge.Policy.Disk.{Codec}
use trustmodel_edge.Policy.Cache.{is_warm, replace, replaced}
use trustmodel_edge.Policy.Sync.{Round, State, sync_once, warm}
use trustmodel_edge.Policy.Sync.Kept.{Synced, Kept, sync_once-Kept}
use trustmodel_edge.Policy.Sync.Started.{warm-is_warm}
use trustmodel_edge.Telemetry.Opening.{DbFiles, Opened}
use trustmodel_edge.Identity.{Formats}
use trustmodel_edge.Routes.Health.{is_revoked, health_ready}
use trustmodel_edge.Routes.Health.Gates.{health_ready-IsServing}
use trustmodel_edge.App.{Pod, StateDir, Surroundings, running, startup, first_round}
use trustmodel_edge.App.Steps.{Step, beats, syncs, sends, decides, Reach, Reach-keeps}
use trustmodel_edge.App.Began.{Began, startup-Began}

module _ (codec : Codec) (py : PyText) (validate_client : Value → Option AuthorizedClient) where
  Kept-is_warm :
      (round : Round) (state : State codec py validate_client)
      (synced : Synced codec py validate_client)
      → Kept codec py validate_client false round state synced
      → is_warm state.0 ≡ true
      → is_warm synced.0.0 ≡ true
  unfolding replace replaced is_warm
  Kept-is_warm round state synced (inl (same, _)) w = subst (λ s. is_warm s.0 ≡ true) (sym same) w
  Kept-is_warm round state synced (inr (p, _, made)) w = rw made refl

module _ {P : Type 0} (codec : Codec) (py : PyText)
    (validate_client : Value → Option AuthorizedClient) (formats : Formats)
    (decimal : Char → Option ℕ) where
  abbrev IsOpen : Pod codec.Text P → Type 0
  IsOpen pod = (pod.enrollment_complete ≡ true) × (is_warm pod.policy.0 ≡ true)

  Step-IsOpen :
      (pod next : Pod codec.Text P)
      → Step codec py validate_client formats decimal false pod next
      → IsOpen pod
      → IsOpen next
  Step-IsOpen pod next (beats state tick h e) ready = ready
  Step-IsOpen pod next (syncs round) (enrolled, w) = (
    enrolled,
    Kept-is_warm codec py validate_client round pod.policy
        (sync_once codec py validate_client false round pod.policy)
        (sync_once-Kept codec py validate_client false round pod.policy) w,
  )
  Step-IsOpen pod next (sends meeting) ready = ready
  Step-IsOpen pod next (decides fails now event) ready = ready

  answers_ready :
      (pod : Pod codec.Text P)
      → IsOpen pod
      → is_revoked pod.heartbeat ≡ false
      → (health_ready pod.enrollment_complete pod.heartbeat pod.policy.0).0 ≡ 200
  answers_ready pod (enrolled, w) r =
      elim (health_ready-IsServing pod.enrollment_complete pod.heartbeat pod.policy.0) [
        | inl (_, code) ↦ code
        | inr (not_serving, _) ↦ absurd (not_serving (enrolled, r, w))
      ]

  module _ {F : Type 0} (connect : DbFiles F → DbFiles F × Opened P) (lower : String → String)
      (cfg : Settings) (around : Surroundings) (dir : StateDir codec.Text F) where
    Began-IsOpen :
        (skip : Bool) (pod : Pod codec.Text P)
        → Began codec py validate_client formats connect lower cfg around dir pod skip
        → cfg.multi_policy_enabled ≡ false
        → pod.policy_warm_ok ≡ true
        → IsOpen pod
    Began-IsOpen skip pod b single ok = subst IsOpen (sym b.serves) (
      refl,
      started_warm (cfg.multi_policy_enabled) single
          (subst (λ p. p.policy_warm_ok ≡ true) b.serves ok),
    )
      where
        started_warm :
            (multi : Bool)
            → multi ≡ false
            → (warm codec py validate_client false multi
                (first_round around b.minted)
                (b.cache, dir.policy_files)).1
              ≡ true
            → is_warm
                (warm codec py validate_client false multi
                  (first_round around b.minted)
                  (b.cache, dir.policy_files)).0.0
              ≡ true
        started_warm true e w = absurd (cc)
        started_warm false e w =
            warm-is_warm codec py validate_client false (first_round around b.minted)
              (b.cache, dir.policy_files) w

    -- In single-policy mode a pod that was warm when it started answers ready at every later time,
    -- however its tasks take turns and whatever fails, until it is revoked.
    pub Reach-ready :
        (skip : Bool) (pod last : Pod codec.Text P)
        → startup codec py validate_client formats connect lower cfg skip around dir ≡ running pod
        → cfg.multi_policy_enabled ≡ false
        → pod.policy_warm_ok ≡ true
        → Reach codec py validate_client formats decimal false pod last
        → is_revoked last.heartbeat ≡ false
        → (health_ready last.enrollment_complete last.heartbeat last.policy.0).0 ≡ 200
    Reach-ready skip pod last h single ok reached r =
        answers_ready last
          (Reach-keeps codec py validate_client formats decimal false IsOpen Step-IsOpen pod last
            reached
            (Began-IsOpen skip pod
              (startup-Began codec py validate_client formats connect lower cfg around dir pod skip
                h)
              single ok))
          r
