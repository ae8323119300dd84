-- ===== src/Examples/Rotating.antt =====
-- Heartbeats and rotations (src/edge/heartbeat.py) of one Edge.
use mathlib.Core.Path.{◌≡◌, refl}
use mathlib.Core.Logic.{◌≢◌, ◌↔◌}
use mathlib.Core.Bool.{true, false}
use mathlib.Core.Option.{none}
use mathlib.Core.List.{[], ◌∷◌}
use trustmodel_edge.Identity.{uninterrupted, load_credentials, present}
use trustmodel_edge.Identity.Restored.{ArePlain, ReadsBack}
use trustmodel_edge.ControlPlane.{Gateway}
use trustmodel_edge.Heartbeat.{EdgeState, Tick, heartbeat_loop, loop_returned, loop_raised}
use trustmodel_edge.Heartbeat.Rotated.{creds_of, load_credentials-heartbeat_loop}
use trustmodel_edge.Heartbeat.Revoked.{Reaches, heartbeat_loop-Reaches}
use trustmodel_edge.Examples.Enrolling.{
  formats, gateway, revoking, decimal, next_plain, next_reads, old_creds, old_files, old_loads,
}

abbrev pub tick_by : Gateway → Tick
tick_by g = record {
  gateway = g;
  beat_at = 60;
  monotonic = 1;
  rotate_at = 61;
  interrupt = uninterrupted;
}

abbrev pub edge : EdgeState
edge = record {
  state = record { credentials = old_creds; revoked = false; last_tick_ok_at = none };
  files = old_files;
}

two_beats :
    (heartbeat_loop formats decimal (tick_by gateway ∷ tick_by revoking ∷ []) edge).1
    ≡ loop_returned
unfolding heartbeat_loop
two_beats = refl

not_raised :
    (heartbeat_loop formats decimal (tick_by gateway ∷ tick_by revoking ∷ []) edge).1 ≢ loop_raised
not_raised e = absurd (cc (two_beats, e))

rotated_plain :
    ArePlain
      (creds_of (heartbeat_loop formats decimal (tick_by gateway ∷ tick_by revoking ∷ []) edge).0)
unfolding heartbeat_loop
rotated_plain = next_plain

rotated_reads :
    ReadsBack formats
      (creds_of (heartbeat_loop formats decimal (tick_by gateway ∷ tick_by revoking ∷ []) edge).0)
unfolding heartbeat_loop
rotated_reads = next_reads

load_credentials-heartbeat_loop_example :
    load_credentials formats
      (heartbeat_loop formats decimal (tick_by gateway ∷ tick_by revoking ∷ []) edge).0.files
    ≡ present
        (creds_of (heartbeat_loop formats decimal (tick_by gateway ∷ tick_by revoking ∷ []) edge).0)
load_credentials-heartbeat_loop_example =
    load_credentials-heartbeat_loop formats decimal (tick_by gateway ∷ tick_by revoking ∷ []) edge
      old_loads not_raised rotated_plain rotated_reads

abbrev last : EdgeState
last = record edge { state = record edge.state { revoked = true } }

heartbeat_loop-Reaches_example :
    (Reaches formats decimal (tick_by revoking ∷ []) edge last
      ↔ (heartbeat_loop formats decimal (tick_by revoking ∷ []) edge ≡ (last, loop_returned)))
    × (((heartbeat_loop formats decimal (tick_by revoking ∷ []) edge).0.state.revoked ≡ true)
        ↔ ((heartbeat_loop formats decimal (tick_by revoking ∷ []) edge).1 ≡ loop_returned))
heartbeat_loop-Reaches_example =
    heartbeat_loop-Reaches formats decimal (tick_by revoking ∷ []) edge last refl
