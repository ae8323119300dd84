-- ===== src/App/Exits.antt =====
-- How the process of src/edge/app.py ends.
use Prim.Native.Nat.{ℕ}
use Prim.Native.Char.{Char}
use Prim.Native.String.{String}
use mathlib.Core.Path.{◌≡◌, refl, sym, ◌∙◌, subst}
use mathlib.Core.Logic.{◌↔◌}
use mathlib.Core.Bool.{Bool, true, false}
use mathlib.Core.Option.{Option, none, some}
use mathlib.Core.List.{List}
use trustmodel_edge.Value.{Value, PyText}
use trustmodel_edge.Config.{Settings}
use trustmodel_edge.Policy.Bundle.{AuthorizedClient}
use trustmodel_edge.Policy.Disk.{Codec}
use trustmodel_edge.Telemetry.Opening.{DbFiles, Opened}
use trustmodel_edge.Identity.{EdgeCredentials, Formats}
use trustmodel_edge.Heartbeat.{
  HeartbeatState, EdgeState, Tick, TickEnd, tick_returned, tick_revoked, tick_raised, one_tick,
  LoopEnd, loop_returned, loop_raised, looping,
}
use trustmodel_edge.Heartbeat.Revoked.{Told, one_tick-Told}
use trustmodel_edge.Routes.Health.{is_revoked}
use trustmodel_edge.App.{
  Pod, StateDir, Surroundings, running, Ended, exit_3, end_raised, exit_by, ended, shutdown,
  startup, heartbeat_state,
}
use trustmodel_edge.App.Steps.{
  ticked, edge_of, Step, beats, syncs, sends, decides, Reach, Reach-keeps,
}
use trustmodel_edge.Telemetry.Sender.Failing.{Meeting}
use trustmodel_edge.App.Began.{Began, startup-Began}

abbrev is_returned : LoopEnd → Bool
is_returned loop_returned = true
is_returned loop_raised = false
is_returned looping = false

-- The flag is set just when the heartbeat task has returned, and without enrollment there is no task.
abbrev pub IsCoherent : Option HeartbeatState → LoopEnd → Type 0
IsCoherent none beating = (beating ≡ looping)
IsCoherent (some state) beating = (state.revoked ≡ is_returned beating)

-- The exit code by the flag and the task.
abbrev pub EndsBy : Option HeartbeatState → LoopEnd → Ended → Type 0
EndsBy heartbeat beating e =
    ((e ≡ exit_3) ↔ (is_revoked heartbeat ≡ true)) × ((e ≡ end_raised) ↔ (beating ≡ loop_raised))

exit_by-EndsBy :
    (state : HeartbeatState) (revoked : Bool) (beating : LoopEnd)
    → state.revoked ≡ revoked
    → revoked ≡ is_returned beating
    → EndsBy (some state) beating (exit_by state.revoked beating)
exit_by-EndsBy state true loop_returned e h =
    rw e ((λ _. refl, λ _. refl), (λ g. absurd (cc), λ g. absurd (cc)))
exit_by-EndsBy state false loop_returned e h = absurd (cc)
exit_by-EndsBy state true loop_raised e h = absurd (cc)
exit_by-EndsBy state false loop_raised e h =
    rw e ((λ g. absurd (cc), λ g. absurd (cc)), (λ _. refl, λ _. refl))
exit_by-EndsBy state true looping e h = absurd (cc)
exit_by-EndsBy state false looping e h =
    rw e ((λ g. absurd (cc), λ g. absurd (cc)), (λ g. absurd (cc), λ g. absurd (cc)))

heartbeat_state-IsCoherent :
    (creds : Option EdgeCredentials) → IsCoherent (heartbeat_state creds) looping
heartbeat_state-IsCoherent none = refl
heartbeat_state-IsCoherent (some c) = refl

flag_down :
    (heartbeat : Option HeartbeatState) (beating : LoopEnd) (state : HeartbeatState)
    → heartbeat ≡ some state
    → beating ≡ looping
    → IsCoherent heartbeat beating
    → state.revoked ≡ false
flag_down none beating state h e coherent = absurd (cc)
flag_down (some s) beating state h e coherent = cc

module _ {P : Type 0} (codec : Codec) (py : PyText)
    (validate_client : Value → Option AuthorizedClient) (formats : Formats)
    (decimal : Char → Option ℕ) (multi : Bool) where
  abbrev pub HasFlag : Pod codec.Text P → Type 0
  HasFlag pod = IsCoherent pod.heartbeat pod.beating

  ticked-HasFlag :
      (pod : Pod codec.Text P) (tick : Tick) (edge : EdgeState) (r : EdgeState × TickEnd)
      → Told formats decimal tick edge r
      → edge.state.revoked ≡ false
      → HasFlag (ticked codec py validate_client formats decimal multi pod r)
  ticked-HasFlag pod tick edge (next, tick_returned) told e = told ∙ e
  ticked-HasFlag pod tick edge (next, tick_revoked) (_, told) e = told
  ticked-HasFlag pod tick edge (next, tick_raised) told e = told ∙ e

  pub Step-HasFlag :
      (pod next : Pod codec.Text P)
      → Step codec py validate_client formats decimal multi pod next
      → HasFlag pod
      → HasFlag next
  Step-HasFlag pod next (beats state tick h e) flag =
      ticked-HasFlag pod tick (edge_of codec py validate_client formats decimal multi pod state)
        (one_tick formats decimal tick
          (edge_of codec py validate_client formats decimal multi pod state))
        (one_tick-Told formats decimal tick
          (edge_of codec py validate_client formats decimal multi pod state))
        (flag_down pod.heartbeat pod.beating state h e flag)
  Step-HasFlag pod next (syncs round) flag = flag
  Step-HasFlag pod next (sends meeting) flag = flag
  Step-HasFlag pod next (decides fails now event) flag = flag

  ended-EndsBy :
      (pod : Pod codec.Text P) (heartbeat : Option HeartbeatState)
      → pod.heartbeat ≡ heartbeat
      → IsCoherent heartbeat pod.beating
      → EndsBy heartbeat pod.beating (ended pod)
  ended-EndsBy pod none e coherent =
      rw e ((λ g. absurd (cc), λ g. absurd (cc)), (λ g. absurd (cc), λ g. absurd (cc)))
  ended-EndsBy pod (some state) e coherent = rw e (exit_by-EndsBy state _ pod.beating refl coherent)

  module _ {F : Type 0} (connect : DbFiles F → DbFiles F × Opened P) (lower : String → String)
      (cfg : Settings) (around : Surroundings) (dir : StateDir codec.Text F) where
    pub Began-HasFlag :
        (skip : Bool) (pod : Pod codec.Text P)
        → Began codec py validate_client formats connect lower cfg around dir pod skip
        → HasFlag pod
    Began-HasFlag skip pod b = subst HasFlag (sym b.serves) (heartbeat_state-IsCoherent b.creds)

    -- A pod that has started and served for any time ends with exit code 3 just when it was revoked, and
    -- with the exception of the heartbeat task just when that task was ended by one.
    pub shutdown-EndsBy :
        (skip : Bool) (pod last : Pod codec.Text P)
        → startup codec py validate_client formats connect lower cfg skip around dir ≡ running pod
        → Reach codec py validate_client formats decimal multi pod last
        → (now : ℕ) (rounds : List (ℕ × Meeting P))
        → EndsBy last.heartbeat last.beating (shutdown cfg now rounds last).1
    unfolding shutdown
    shutdown-EndsBy skip pod last h reached now rounds = ended-EndsBy last last.heartbeat refl (
        Reach-keeps codec py validate_client formats decimal multi HasFlag Step-HasFlag pod last
          reached
          (Began-HasFlag skip pod (
            startup-Began codec py validate_client formats connect lower cfg around dir pod skip
              h)))
