-- ===== src/Heartbeat/Revoked.antt =====
-- When the task of `heartbeat_loop` of src/edge/heartbeat.py ends.
use Prim.Native.Nat.{ℕ}
use Prim.Native.Char.{Char}
use mathlib.Core.Path.{◌≡◌, refl, ap, ◌∙◌, subst}
use mathlib.Core.Logic.{◌↔◌}
use mathlib.Core.Bool.{Bool, true, false}
use mathlib.Core.Option.{Option}
use mathlib.Core.List.{List, [], ◌∷◌}
use trustmodel_edge.Identity.{EdgeCredentials, CredentialFiles, Formats, persist_credentials}
use trustmodel_edge.ControlPlane.{
  RotateBundle, HeartbeatResponse, CallResult, answered, edge_revoked, plane_error, call_raised,
  rotate, heartbeat,
}
use trustmodel_edge.Heartbeat.{
  EdgeState, Tick, TickEnd, tick_returned, tick_revoked, tick_raised, set_ok, new_creds,
  after_persist, kept_bundle, rotate_if_due, beat, one_tick, LoopEnd, loop_returned, loop_raised,
  looping, go_on, heartbeat_loop,
}

module _ (formats : Formats) (decimal : Char → Option ℕ) where
  -- The gateway revokes the Edge in this tick: on the heartbeat, or on the rotation that it asks for.
  pub data Revokes (tick : Tick) (edge : EdgeState) : Type 0 where
    on_beat :
        heartbeat formats decimal tick.gateway tick.beat_at edge.state.credentials ≡ edge_revoked
        → Revokes tick edge
    on_rotation :
        (resp : HeartbeatResponse)
        → heartbeat formats decimal tick.gateway tick.beat_at edge.state.credentials ≡ answered resp
        → resp.rotation_due ≡ true
        → rotate formats tick.gateway tick.rotate_at edge.state.credentials ≡ edge_revoked
        → Revokes tick edge

  -- The loop reaches a tick in which the gateway revokes the Edge, all ticks before it having returned.
  pub data Reaches : List Tick → EdgeState → EdgeState → Type 0 where
    here :
        {tick : Tick} {ticks : List Tick} {edge after : EdgeState}
        → Revokes tick edge
        → (one_tick formats decimal tick edge).0 ≡ after
        → Reaches (tick ∷ ticks) edge after
    later :
        {tick : Tick} {ticks : List Tick} {edge mid after : EdgeState}
        → one_tick formats decimal tick edge ≡ (mid, tick_returned)
        → Reaches ticks mid after
        → Reaches (tick ∷ ticks) edge after

  -- What a tick does to the flag.
  abbrev pub Told : Tick → EdgeState → EdgeState × TickEnd → Type 0
  Told tick edge (after, tick_returned) = (after.state.revoked ≡ edge.state.revoked)
  Told tick edge (after, tick_raised) = (after.state.revoked ≡ edge.state.revoked)
  Told tick edge (after, tick_revoked) = Revokes tick edge × (after.state.revoked ≡ true)

  persisted-Told :
      (tick : Tick) (edge beaten : EdgeState) (new : EdgeCredentials) (r : CredentialFiles × Bool)
      → beaten.state.revoked ≡ edge.state.revoked
      → Told tick edge (after_persist new beaten.state r)
  persisted-Told tick edge beaten new (files, true) e = e
  persisted-Told tick edge beaten new (files, false) e = e

  rotated-Told :
      (tick : Tick) (edge : EdgeState) (resp : HeartbeatResponse)
      → heartbeat formats decimal tick.gateway tick.beat_at edge.state.credentials ≡ answered resp
      → resp.rotation_due ≡ true
      → (r : CallResult RotateBundle)
      → rotate formats tick.gateway tick.rotate_at edge.state.credentials ≡ r
      → Told tick edge (kept_bundle formats tick.interrupt (set_ok tick.monotonic edge) r)
  rotated-Told tick edge resp h due (answered rotated) e =
      persisted-Told tick edge (set_ok tick.monotonic edge)
        (new_creds edge.state.credentials rotated)
        (persist_credentials formats tick.interrupt edge.files
          (new_creds edge.state.credentials rotated))
        refl
  rotated-Told tick edge resp h due edge_revoked e = (on_rotation resp h due e, refl)
  rotated-Told tick edge resp h due plane_error e = refl
  rotated-Told tick edge resp h due call_raised e = refl

  due-Told :
      (tick : Tick) (edge : EdgeState) (resp : HeartbeatResponse) (due : Bool)
      → heartbeat formats decimal tick.gateway tick.beat_at edge.state.credentials ≡ answered resp
      → resp.rotation_due ≡ due
      → Told tick edge (rotate_if_due formats tick (set_ok tick.monotonic edge) due)
  unfolding rotate_if_due
  due-Told tick edge resp false h e = refl
  due-Told tick edge resp true h e = rotated-Told tick edge resp h e _ refl

  beat-Told :
      (tick : Tick) (edge : EdgeState) (r : CallResult HeartbeatResponse)
      → heartbeat formats decimal tick.gateway tick.beat_at edge.state.credentials ≡ r
      → Told tick edge (beat formats tick edge r)
  beat-Told tick edge (answered resp) h = due-Told tick edge resp resp.rotation_due h refl
  beat-Told tick edge edge_revoked h = (on_beat h, refl)
  beat-Told tick edge plane_error h = refl
  beat-Told tick edge call_raised h = refl

  pub one_tick-Told :
      (tick : Tick) (edge : EdgeState) → Told tick edge (one_tick formats decimal tick edge)
  unfolding one_tick
  one_tick-Told tick edge = beat-Told tick edge _ refl

  Revokes-tick_revoked :
      (tick : Tick) (edge : EdgeState)
      → Revokes tick edge
      → (one_tick formats decimal tick edge).1 ≡ tick_revoked
  unfolding one_tick rotate_if_due
  Revokes-tick_revoked tick edge (on_beat h) = rw h
  Revokes-tick_revoked tick edge (on_rotation resp h due e) = rw (h, due, e)

  -- The end of the loop, and the flag.
  abbrev Ends : List Tick → EdgeState → EdgeState × LoopEnd → Type 0
  Ends ticks edge (after, loop_returned) = Reaches ticks edge after × (after.state.revoked ≡ true)
  Ends ticks edge (after, loop_raised) = (after.state.revoked ≡ edge.state.revoked)
  Ends ticks edge (after, looping) = (after.state.revoked ≡ edge.state.revoked)

  later-Ends :
      (tick : Tick) (ticks : List Tick) (edge mid : EdgeState) (r : EdgeState × LoopEnd)
      → one_tick formats decimal tick edge ≡ (mid, tick_returned)
      → mid.state.revoked ≡ edge.state.revoked
      → Ends ticks mid r
      → Ends (tick ∷ ticks) edge r
  later-Ends tick ticks edge mid (after, loop_returned) h e (reached, told) =
      (later h reached, told)
  later-Ends tick ticks edge mid (after, loop_raised) h e same = same ∙ e
  later-Ends tick ticks edge mid (after, looping) h e same = same ∙ e

  go_on-Ends :
      (tick : Tick) (ticks : List Tick) (edge : EdgeState) (r : EdgeState × TickEnd)
      → one_tick formats decimal tick edge ≡ r
      → Told tick edge r
      → ((mid : EdgeState) → Ends ticks mid (heartbeat_loop formats decimal ticks mid))
      → Ends (tick ∷ ticks) edge (go_on (heartbeat_loop formats decimal ticks) r)
  go_on-Ends tick ticks edge (after, tick_returned) h e rest =
      later-Ends tick ticks edge after (heartbeat_loop formats decimal ticks after) h e (rest after)
  go_on-Ends tick ticks edge (after, tick_revoked) h (told, set) rest =
      (here told (ap (λ p. p.0) h), set)
  go_on-Ends tick ticks edge (after, tick_raised) h e rest = e

  heartbeat_loop-Ends :
      (ticks : List Tick) (edge : EdgeState)
      → Ends ticks edge (heartbeat_loop formats decimal ticks edge)
  unfolding heartbeat_loop
  heartbeat_loop-Ends [] edge = refl
  heartbeat_loop-Ends (tick ∷ ticks) edge =
      go_on-Ends tick ticks edge (one_tick formats decimal tick edge) refl (one_tick-Told tick edge)
        (heartbeat_loop-Ends ticks)

  tick_ends :
      (ticks : List Tick) (r : EdgeState × TickEnd) (after : EdgeState)
      → r.1 ≡ tick_revoked
      → r.0 ≡ after
      → go_on (heartbeat_loop formats decimal ticks) r ≡ (after, loop_returned)
  tick_ends ticks (mid, tick_revoked) after h e = ap (λ m. (m, loop_returned)) e
  tick_ends ticks (mid, tick_returned) after h e = absurd (cc)
  tick_ends ticks (mid, tick_raised) after h e = absurd (cc)

  Reaches-heartbeat_loop :
      (ticks : List Tick) (edge after : EdgeState)
      → Reaches ticks edge after
      → heartbeat_loop formats decimal ticks edge ≡ (after, loop_returned)
  unfolding heartbeat_loop
  Reaches-heartbeat_loop [] edge after reached = elim reached [ ]
  Reaches-heartbeat_loop (tick ∷ ticks) edge after (here told e) =
      tick_ends ticks (one_tick formats decimal tick edge) after
        (Revokes-tick_revoked tick edge told) e
  Reaches-heartbeat_loop (tick ∷ ticks) edge after (later {mid = mid} h reached) =
      rw h (Reaches-heartbeat_loop ticks mid after reached)

  returned_by :
      (ticks : List Tick) (edge : EdgeState) (r : EdgeState × LoopEnd)
      → Ends ticks edge r
      → r.1 ≡ loop_returned
      → Reaches ticks edge r.0 × (r.0.state.revoked ≡ true)
  returned_by ticks edge (after, loop_returned) e h = e
  returned_by ticks edge (after, loop_raised) e h = absurd (cc)
  returned_by ticks edge (after, looping) e h = absurd (cc)

  revoked_by :
      (ticks : List Tick) (edge : EdgeState) (r : EdgeState × LoopEnd)
      → Ends ticks edge r
      → edge.state.revoked ≡ false
      → r.0.state.revoked ≡ true
      → r.1 ≡ loop_returned
  revoked_by ticks edge (after, loop_returned) e fresh h = refl
  revoked_by ticks edge (after, loop_raised) e fresh h = absurd (cc)
  revoked_by ticks edge (after, looping) e fresh h = absurd (cc)

  -- The loop returns in a state just when it reaches, all ticks before having returned, a tick in which
  -- the gateway revokes the Edge, on the heartbeat or on the rotation that it asked for, and that tick
  -- leaves this state; and the flag, which is not set before, is set just when the loop has returned.
  pub heartbeat_loop-Reaches :
      (ticks : List Tick) (edge last : EdgeState)
      → edge.state.revoked ≡ false
      → (Reaches ticks edge last
          ↔ (heartbeat_loop formats decimal ticks edge ≡ (last, loop_returned)))
        × (((heartbeat_loop formats decimal ticks edge).0.state.revoked ≡ true)
            ↔ ((heartbeat_loop formats decimal ticks edge).1 ≡ loop_returned))
  heartbeat_loop-Reaches ticks edge last fresh =
      let ends = heartbeat_loop-Ends ticks edge in
      (
        (Reaches-heartbeat_loop ticks edge last, λ h. (subst (Ends ticks edge) h ends).0),
        (
          revoked_by ticks edge (heartbeat_loop formats decimal ticks edge) ends fresh,
          λ h. (returned_by ticks edge (heartbeat_loop formats decimal ticks edge) ends h).1,
        ),
      )
