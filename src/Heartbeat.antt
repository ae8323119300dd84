-- ===== src/Heartbeat.antt =====
-- src/edge/heartbeat.py. A `Tick` is what one turn of the loop meets: the answers of the gateway, the
-- clocks, and what fails while the files are written.
pub mod Rotated
pub mod Revoked
use Prim.Native.Nat.{ℕ}
use Prim.Native.Char.{Char}
use mathlib.Core.Bool.{Bool, true, false}
use mathlib.Core.Option.{Option, some}
use mathlib.Core.List.{List, [], ◌∷◌}
use trustmodel_edge.Identity.{
  EdgeCredentials, CredentialFiles, Formats, Interrupt, persist_credentials,
}
use trustmodel_edge.ControlPlane.{
  RotateBundle, HeartbeatResponse, Gateway, CallResult, answered, edge_revoked, plane_error,
  call_raised, rotate, heartbeat,
}

pub record HeartbeatState : Type 0 where
  pub credentials : EdgeCredentials
  pub revoked : Bool
  pub last_tick_ok_at : Option ℕ

-- The shared state, and the files of `settings.state_dir`.
pub record EdgeState : Type 0 where
  pub state : HeartbeatState
  pub files : CredentialFiles

-- `beat_at` and `rotate_at` are when the two requests are signed, `monotonic` is the loop's clock.
pub record Tick : Type 0 where
  pub gateway : Gateway
  pub beat_at : ℕ
  pub monotonic : ℕ
  pub rotate_at : ℕ
  pub interrupt : Interrupt

-- How `_one_tick` ends: it returns, raises `EdgeRevoked`, or raises another exception.
pub data TickEnd : Type 0 where
  tick_returned : TickEnd
  tick_revoked : TickEnd
  tick_raised : TickEnd

abbrev replace_credentials : EdgeCredentials → HeartbeatState → HeartbeatState
replace_credentials new state = record state { credentials = new }

abbrev set_revoked : EdgeState → EdgeState
set_revoked edge = record edge { state = record edge.state { revoked = true } }

abbrev pub set_ok : ℕ → EdgeState → EdgeState
set_ok at edge = record edge { state = record edge.state { last_tick_ok_at = some at } }

abbrev pub new_creds : EdgeCredentials → RotateBundle → EdgeCredentials
new_creds old rotated = record old {
  cert_pem = rotated.cert_pem;
  key_pem = rotated.key_pem;
  ca_chain_pem = rotated.ca_chain_pem;
  cert_valid_to = rotated.cert_valid_to;
}

abbrev pub after_persist :
    EdgeCredentials → HeartbeatState → CredentialFiles × Bool → EdgeState × TickEnd
after_persist new state (files, true) =
    (record { state = replace_credentials new state; files = files }, tick_returned)
after_persist new state (files, false) = (record { state = state; files = files }, tick_raised)

module _ (formats : Formats) where
  abbrev pub kept_bundle : Interrupt → EdgeState → CallResult RotateBundle → EdgeState × TickEnd
  kept_bundle interrupt edge (answered rotated) =
      let new = new_creds edge.state.credentials rotated in
      after_persist new edge.state (persist_credentials formats interrupt edge.files new)
  kept_bundle interrupt edge edge_revoked = (set_revoked edge, tick_revoked)
  kept_bundle interrupt edge plane_error = (edge, tick_returned)
  kept_bundle interrupt edge call_raised = (edge, tick_raised)

  -- The `if resp.rotation_due`.
  pub rotate_if_due : Tick → EdgeState → Bool → EdgeState × TickEnd
  unfolding rotate persist_credentials
  rotate_if_due tick edge false = (edge, tick_returned)
  rotate_if_due tick edge true =
      kept_bundle tick.interrupt edge
        (rotate formats tick.gateway tick.rotate_at edge.state.credentials)

  abbrev pub beat : Tick → EdgeState → CallResult HeartbeatResponse → EdgeState × TickEnd
  beat tick edge (answered resp) = rotate_if_due tick (set_ok tick.monotonic edge) resp.rotation_due
  beat tick edge edge_revoked = (set_revoked edge, tick_revoked)
  beat tick edge plane_error = (edge, tick_returned)
  beat tick edge call_raised = (edge, tick_raised)

  module _ (decimal : Char → Option ℕ) where
    unfoldable pub one_tick : Tick → EdgeState → EdgeState × TickEnd
    unfolding rotate_if_due heartbeat
    one_tick tick edge =
        beat tick edge (heartbeat formats decimal tick.gateway tick.beat_at edge.state.credentials)

-- How far the task of `heartbeat_loop` is: it returned, an exception ended it, or it goes on.
pub data LoopEnd : Type 0 where
  loop_returned : LoopEnd
  loop_raised : LoopEnd
  looping : LoopEnd

-- The `try` of the loop, and what comes behind it.
abbrev pub go_on : (EdgeState → EdgeState × LoopEnd) → EdgeState × TickEnd → EdgeState × LoopEnd
go_on rest (edge, tick_returned) = rest edge
go_on rest (edge, tick_revoked) = (edge, loop_returned)
go_on rest (edge, tick_raised) = (edge, loop_raised)

module _ (formats : Formats) (decimal : Char → Option ℕ) where
  -- The loop over the ticks that come before it is cancelled.
  unfoldable pub heartbeat_loop : List Tick → EdgeState → EdgeState × LoopEnd
  unfolding one_tick
  heartbeat_loop [] edge = (edge, looping)
  heartbeat_loop (tick ∷ ticks) edge =
      go_on (heartbeat_loop ticks) (one_tick formats decimal tick edge)
