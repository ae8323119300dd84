-- ===== src/App/Revoked.antt =====
-- A revoked pod of src/edge/app.py.
use Prim.Native.Nat.{ℕ}
use Prim.Native.Char.{Char}
use Prim.Native.String.{String}
use mathlib.Core.Path.{◌≡◌, refl}
use mathlib.Core.Logic.{inl, inr}
use mathlib.Core.Bool.{Bool, true}
use mathlib.Core.Option.{Option, none, some}
use trustmodel_edge.Value.{Value, PyText}
use trustmodel_edge.Config.{Settings}
use trustmodel_edge.Policy.Bundle.{AuthorizedClient}
use trustmodel_edge.Policy.Disk.{Codec}
use trustmodel_edge.Telemetry.Opening.{DbFiles, Opened}
use trustmodel_edge.Identity.{Formats}
use trustmodel_edge.Heartbeat.{HeartbeatState, LoopEnd, loop_returned, loop_raised, looping}
use trustmodel_edge.Routes.Health.{is_revoked, health_ready}
use trustmodel_edge.Routes.Health.Gates.{health_ready-IsServing}
use trustmodel_edge.App.{Pod, StateDir, Surroundings, running, startup}
use trustmodel_edge.App.Steps.{Step, beats, syncs, sends, decides, Reach, Reach-keeps}
use trustmodel_edge.App.Began.{startup-Began}
use trustmodel_edge.App.Exits.{IsCoherent, HasFlag, Step-HasFlag, Began-HasFlag}

-- The flag is set and the heartbeat task has returned.
abbrev IsGone : Option HeartbeatState → LoopEnd → Type 0
IsGone heartbeat beating = (is_revoked heartbeat ≡ true) × (beating ≡ loop_returned)

coherent-IsGone :
    (heartbeat : Option HeartbeatState) (beating : LoopEnd)
    → IsCoherent heartbeat beating
    → is_revoked heartbeat ≡ true
    → IsGone heartbeat beating
coherent-IsGone none beating coherent r = absurd (cc)
coherent-IsGone (some state) loop_returned coherent r = (r, refl)
coherent-IsGone (some state) loop_raised coherent r = absurd (cc)
coherent-IsGone (some state) looping coherent r = absurd (cc)

module _ {P : Type 0} (codec : Codec) (py : PyText)
    (validate_client : Value → Option AuthorizedClient) (formats : Formats)
    (decimal : Char → Option ℕ) (multi : Bool) where
  abbrev IsOut : Pod codec.Text P → Type 0
  IsOut pod = IsGone pod.heartbeat pod.beating

  Step-IsOut :
      (pod next : Pod codec.Text P)
      → Step codec py validate_client formats decimal multi pod next
      → IsOut pod
      → IsOut next
  Step-IsOut pod next (beats state tick h e) (_, returned) = absurd (cc (e, returned))
  Step-IsOut pod next (syncs round) out = out
  Step-IsOut pod next (sends meeting) out = out
  Step-IsOut pod next (decides fails now event) out = out

  answers_503 :
      (pod : Pod codec.Text P)
      → is_revoked pod.heartbeat ≡ true
      → (health_ready pod.enrollment_complete pod.heartbeat pod.policy.0).0 ≡ 503
  answers_503 pod r =
      elim (health_ready-IsServing pod.enrollment_complete pod.heartbeat pod.policy.0) [
        | inl ((_, up, _), _) ↦ absurd (cc (up, r))
        | inr (_, code) ↦ code
      ]

  module _ {F : Type 0} (connect : DbFiles F → DbFiles F × Opened P) (lower : String → String)
      (cfg : Settings) (around : Surroundings) (dir : StateDir codec.Text F) where
    -- Revocation is final: once a pod that has started is revoked, in any mode, it answers at every
    -- later time that it is not ready, and its heartbeat task stays returned.
    pub Reach-revoked :
        (skip : Bool) (pod mid last : Pod codec.Text P)
        → startup codec py validate_client formats connect lower cfg skip around dir ≡ running pod
        → Reach codec py validate_client formats decimal multi pod mid
        → is_revoked mid.heartbeat ≡ true
        → Reach codec py validate_client formats decimal multi mid last
        → ((health_ready last.enrollment_complete last.heartbeat last.policy.0).0 ≡ 503)
          × (last.beating ≡ loop_returned)
    Reach-revoked skip pod mid last h reached r later =
        let flag =
          Reach-keeps codec py validate_client formats decimal multi
            (HasFlag codec py validate_client formats decimal multi)
            (Step-HasFlag codec py validate_client formats decimal multi) pod mid reached
            (Began-HasFlag codec py validate_client formats decimal multi connect lower cfg around
              dir skip pod
              (startup-Began codec py validate_client formats connect lower cfg around dir pod skip
                h)) in
        let (revoked, returned) =
          Reach-keeps codec py validate_client formats decimal multi IsOut Step-IsOut mid last later
            (coherent-IsGone mid.heartbeat mid.beating flag r) in
        (answers_503 last revoked, returned)
