-- ===== src/Heartbeat/Rotated.antt =====
-- What the ticks of src/edge/heartbeat.py keep: who the Edge is, and the files beside the credentials.
use Prim.Native.Nat.{ℕ}
use Prim.Native.Char.{Char}
use mathlib.Core.Path.{◌≡◌, refl, sym, ap, ◌∙◌}
use mathlib.Core.Logic.{◌⊎◌, ◌≢◌, inl, inr}
use mathlib.Core.Bool.{Bool, true, false}
use mathlib.Core.Option.{Option}
use mathlib.Core.List.{List, [], ◌∷◌}
use trustmodel_edge.Identity.{
  EdgeCredentials, CredentialFiles, Formats, Interrupt, uninterrupted, at_mkdir, at_cert, at_key,
  at_chmod, at_ca, at_meta, persist_credentials, load_credentials, present,
}
use trustmodel_edge.Identity.Restored.{ArePlain, ReadsBack, load_credentials-persist_credentials}
use trustmodel_edge.Identity.Interrupted.{SameIdentity}
use trustmodel_edge.ControlPlane.{
  RotateBundle, HeartbeatResponse, CallResult, answered, edge_revoked, plane_error, call_raised,
  rotate,
}
use trustmodel_edge.Heartbeat.{
  EdgeState, Tick, TickEnd, tick_returned, tick_revoked, tick_raised, set_ok, kept_bundle,
  rotate_if_due, beat, one_tick, LoopEnd, loop_returned, loop_raised, looping, go_on,
  heartbeat_loop,
}

abbrev pub creds_of : EdgeState → EdgeCredentials
creds_of edge = edge.state.credentials

module _ (formats : Formats) where
  -- The last rotation, if there was one, is what the files hold; without one they are as they were.
  abbrev AreInStep : EdgeState → EdgeState → Type 0
  AreInStep before after =
      ((creds_of after ≡ creds_of before) × (after.files ≡ before.files))
      ⊎ ((files : CredentialFiles) × (after.files
            ≡ (persist_credentials formats uninterrupted files (creds_of after)).0))

  -- The identity is kept, and unless a write failed memory and disk are in step.
  abbrev Turned : EdgeState → EdgeState × TickEnd → Type 0
  Turned before (after, tick_returned) =
      SameIdentity (creds_of after) (creds_of before) × AreInStep before after
  Turned before (after, tick_revoked) =
      SameIdentity (creds_of after) (creds_of before) × AreInStep before after
  Turned before (after, tick_raised) = SameIdentity (creds_of after) (creds_of before)

  after_persist-Turned :
      (interrupt : Interrupt) (edge : EdgeState) (r : RotateBundle)
      → Turned edge (kept_bundle formats interrupt edge (answered r))
  unfolding persist_credentials
  after_persist-Turned uninterrupted edge r = ((refl, refl, refl, refl), inr (edge.files, refl))
  after_persist-Turned at_mkdir edge r = (refl, refl, refl, refl)
  after_persist-Turned (at_cert t) edge r = (refl, refl, refl, refl)
  after_persist-Turned (at_key t) edge r = (refl, refl, refl, refl)
  after_persist-Turned at_chmod edge r = (refl, refl, refl, refl)
  after_persist-Turned (at_ca t) edge r = (refl, refl, refl, refl)
  after_persist-Turned (at_meta t) edge r = (refl, refl, refl, refl)

  kept_bundle-Turned :
      (interrupt : Interrupt) (edge : EdgeState) (r : CallResult RotateBundle)
      → Turned edge (kept_bundle formats interrupt edge r)
  kept_bundle-Turned interrupt edge (answered r) = after_persist-Turned interrupt edge r
  kept_bundle-Turned interrupt edge edge_revoked = ((refl, refl, refl, refl), inl (refl, refl))
  kept_bundle-Turned interrupt edge plane_error = ((refl, refl, refl, refl), inl (refl, refl))
  kept_bundle-Turned interrupt edge call_raised = (refl, refl, refl, refl)

  rotate_if_due-Turned :
      (tick : Tick) (edge : EdgeState) (due : Bool)
      → Turned edge (rotate_if_due formats tick edge due)
  unfolding rotate_if_due
  rotate_if_due-Turned tick edge false = ((refl, refl, refl, refl), inl (refl, refl))
  rotate_if_due-Turned tick edge true =
      kept_bundle-Turned tick.interrupt edge
        (rotate formats tick.gateway tick.rotate_at (creds_of edge))

  abbrev LoopTurned : EdgeState → EdgeState × LoopEnd → Type 0
  LoopTurned before (after, looping) =
      SameIdentity (creds_of after) (creds_of before) × AreInStep before after
  LoopTurned before (after, loop_returned) =
      SameIdentity (creds_of after) (creds_of before) × AreInStep before after
  LoopTurned before (after, loop_raised) = SameIdentity (creds_of after) (creds_of before)

  same_trans : (a b c : EdgeCredentials) → SameIdentity b a → SameIdentity c b → SameIdentity c a
  same_trans a b c (e, t, g, m) (e', t', g', m') = (e' ∙ e, t' ∙ t, g' ∙ g, m' ∙ m)

  in_step_trans : (a b c : EdgeState) → AreInStep a b → AreInStep b c → AreInStep a c
  in_step_trans a b c s (inr t) = inr t
  in_step_trans a b c (inl (creds, files)) (inl (creds', files')) =
      inl (creds' ∙ creds, files' ∙ files)
  in_step_trans a b c (inr (files, held)) (inl (creds', files')) = inr (
    files,
    files' ∙ held ∙ ap (λ d. (persist_credentials formats uninterrupted files d).0) (sym creds'),
  )

  then-LoopTurned :
      (a b : EdgeState) (r : EdgeState × LoopEnd)
      → SameIdentity (creds_of b) (creds_of a) × AreInStep a b
      → LoopTurned b r
      → LoopTurned a r
  then-LoopTurned a b (c, looping) (same, step) (same', step') =
      (same_trans (creds_of a) (creds_of b) (creds_of c) same same', in_step_trans a b c step step')
  then-LoopTurned a b (c, loop_returned) (same, step) (same', step') =
      (same_trans (creds_of a) (creds_of b) (creds_of c) same same', in_step_trans a b c step step')
  then-LoopTurned a b (c, loop_raised) (same, step) same' =
      same_trans (creds_of a) (creds_of b) (creds_of c) same same'

  LoopTurned-SameIdentity :
      (a : EdgeState) (r : EdgeState × LoopEnd)
      → LoopTurned a r
      → SameIdentity (creds_of r.0) (creds_of a)
  LoopTurned-SameIdentity a (b, looping) (same, _) = same
  LoopTurned-SameIdentity a (b, loop_returned) (same, _) = same
  LoopTurned-SameIdentity a (b, loop_raised) same = same

  LoopTurned-AreInStep :
      (a : EdgeState) (r : EdgeState × LoopEnd)
      → LoopTurned a r
      → r.1 ≢ loop_raised
      → AreInStep a r.0
  LoopTurned-AreInStep a (b, looping) (_, step) h = step
  LoopTurned-AreInStep a (b, loop_returned) (_, step) h = step
  LoopTurned-AreInStep a (b, loop_raised) same h = absurd (h refl)

  module _ (decimal : Char → Option ℕ) where
    beat-Turned :
        (tick : Tick) (edge : EdgeState) (r : CallResult HeartbeatResponse)
        → Turned edge (beat formats tick edge r)
    beat-Turned tick edge (answered resp) =
        rotate_if_due-Turned tick (set_ok tick.monotonic edge) resp.rotation_due
    beat-Turned tick edge edge_revoked = ((refl, refl, refl, refl), inl (refl, refl))
    beat-Turned tick edge plane_error = ((refl, refl, refl, refl), inl (refl, refl))
    beat-Turned tick edge call_raised = (refl, refl, refl, refl)

    one_tick-Turned :
        (tick : Tick) (edge : EdgeState) → Turned edge (one_tick formats decimal tick edge)
    unfolding one_tick
    one_tick-Turned tick edge = beat-Turned tick edge _

    go_on-LoopTurned :
        (rest : EdgeState → EdgeState × LoopEnd) (edge : EdgeState) (r : EdgeState × TickEnd)
        → Turned edge r
        → ((after : EdgeState) → LoopTurned after (rest after))
        → LoopTurned edge (go_on rest r)
    go_on-LoopTurned rest edge (after, tick_returned) turned then_too =
        then-LoopTurned edge after (rest after) turned (then_too after)
    go_on-LoopTurned rest edge (after, tick_revoked) turned then_too = turned
    go_on-LoopTurned rest edge (after, tick_raised) turned then_too = turned

    heartbeat_loop-LoopTurned :
        (ticks : List Tick) (edge : EdgeState)
        → LoopTurned edge (heartbeat_loop formats decimal ticks edge)
    unfolding heartbeat_loop
    heartbeat_loop-LoopTurned [] edge = ((refl, refl, refl, refl), inl (refl, refl))
    heartbeat_loop-LoopTurned (tick ∷ ticks) edge =
        go_on-LoopTurned (heartbeat_loop formats decimal ticks) edge
          (one_tick formats decimal tick edge) (one_tick-Turned tick edge)
          (heartbeat_loop-LoopTurned ticks)

    -- Whatever the gateway answers and whatever fails, any number of heartbeats and rotations leaves the
    -- edge, the tenant and the two endpoints of the credentials as they were.
    pub heartbeat_loop-SameIdentity :
        (ticks : List Tick) (edge : EdgeState)
        → SameIdentity (creds_of (heartbeat_loop formats decimal ticks edge).0) (creds_of edge)
    heartbeat_loop-SameIdentity ticks edge =
        LoopTurned-SameIdentity edge (heartbeat_loop formats decimal ticks edge)
          (heartbeat_loop-LoopTurned ticks edge)

    loads_by :
        (before after : EdgeState)
        → AreInStep before after
        → load_credentials formats before.files ≡ present (creds_of before)
        → ArePlain (creds_of after)
        → ReadsBack formats (creds_of after)
        → load_credentials formats after.files ≡ present (creds_of after)
    loads_by before after (inl (creds, files)) loaded plain reads =
        ap (load_credentials formats) files ∙ loaded ∙ ap present (sym creds)
    loads_by before after (inr (files, held)) loaded plain reads =
        ap (load_credentials formats) held
        ∙ load_credentials-persist_credentials formats files (creds_of after) plain reads

    -- The files hold the credentials in use: if they do before the loop starts, then after any number of
    -- heartbeats and rotations that did not end in an unexpected exception a restart loads just the
    -- credentials in memory, if json and the format of times read them back and their PEM texts have no
    -- carriage return.
    pub load_credentials-heartbeat_loop :
        (ticks : List Tick) (edge : EdgeState)
        → load_credentials formats edge.files ≡ present (creds_of edge)
        → (heartbeat_loop formats decimal ticks edge).1 ≢ loop_raised
        → ArePlain (creds_of (heartbeat_loop formats decimal ticks edge).0)
        → ReadsBack formats (creds_of (heartbeat_loop formats decimal ticks edge).0)
        → load_credentials formats (heartbeat_loop formats decimal ticks edge).0.files
          ≡ present (creds_of (heartbeat_loop formats decimal ticks edge).0)
    load_credentials-heartbeat_loop ticks edge loaded no_raise plain reads =
        loads_by edge (heartbeat_loop formats decimal ticks edge).0
          (LoopTurned-AreInStep edge (heartbeat_loop formats decimal ticks edge)
            (heartbeat_loop-LoopTurned ticks edge) no_raise)
          loaded plain reads
