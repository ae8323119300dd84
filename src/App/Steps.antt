-- ===== src/App/Steps.antt =====
-- What runs while a pod of src/edge/app.py serves: its tasks and its handlers share one event loop, so
-- they take turns.
pub mod Valid
use Prim.Native.Nat.{ℕ}
use Prim.Native.Char.{Char}
use mathlib.Core.Path.{◌≡◌}
use mathlib.Core.Bool.{Bool}
use mathlib.Core.Option.{Option, some}
use trustmodel_edge.Value.{Value, PyText}
use trustmodel_edge.Policy.Bundle.{AuthorizedClient}
use trustmodel_edge.Policy.Disk.{Codec}
use trustmodel_edge.Policy.Sync.{Round, sync_once}
use trustmodel_edge.Telemetry.Store.{any_enqueue}
use trustmodel_edge.Telemetry.Sender.{TelemetrySender}
use trustmodel_edge.Telemetry.Contract.{any_queue}
use trustmodel_edge.Telemetry.Sender.Failing.{Meeting, run_round_catching}
use trustmodel_edge.Identity.{Formats}
use trustmodel_edge.Heartbeat.{
  HeartbeatState, EdgeState, Tick, TickEnd, tick_returned, tick_revoked, tick_raised, one_tick,
  loop_returned, loop_raised, looping, LoopEnd,
}
use trustmodel_edge.App.{Pod}

abbrev beating_after : TickEnd → LoopEnd
beating_after tick_returned = looping
beating_after tick_revoked = loop_returned
beating_after tick_raised = loop_raised

module _ {P : Type 0} (codec : Codec) (py : PyText)
    (validate_client : Value → Option AuthorizedClient) (formats : Formats)
    (decimal : Char → Option ℕ) (multi : Bool) where
  abbrev pub ticked : Pod codec.Text P → EdgeState × TickEnd → Pod codec.Text P
  ticked pod (edge, t) = record pod {
    heartbeat = some edge.state;
    files = edge.files;
    beating = beating_after t;
  }

  abbrev pub edge_of : Pod codec.Text P → HeartbeatState → EdgeState
  edge_of pod state = record { state = state; files = pod.files }

  abbrev with_sender : Pod codec.Text P → TelemetrySender P → Pod codec.Text P
  with_sender pod sender = record pod { sender = sender }

  -- One turn: of the heartbeat task while it goes on, of the sync task, of the sender task, in whose
  -- tick calls may raise, or of a decision that puts an event into the queue. The heartbeat task
  -- takes no turns once it has ended.
  pub data Step (pod : Pod codec.Text P) : Pod codec.Text P → Type 0 where
    beats :
        (state : HeartbeatState) (tick : Tick)
        → pod.heartbeat ≡ some state
        → pod.beating ≡ looping
        → Step pod (ticked pod (one_tick formats decimal tick (edge_of pod state)))
    syncs :
        (round : Round)
        → Step pod
            (record pod { policy = (sync_once codec py validate_client multi round pod.policy).0 })
    sends :
        (meeting : Meeting P)
        → Step pod (with_sender pod (run_round_catching any_queue meeting pod.sender).0)
    decides :
        (fails : Bool) (now : ℕ) (event : P)
        → Step pod (
            with_sender pod
              (record pod.sender { store = (any_enqueue fails now event pod.sender.store).0 }))

  pub data Reach (pod : Pod codec.Text P) : Pod codec.Text P → Type 0 where
    start : Reach pod pod
    after : {mid last : Pod codec.Text P} → Reach pod mid → Step mid last → Reach pod last

  -- What every turn keeps, any turns keep.
  pub Reach-keeps :
      (Q : Pod codec.Text P → Type 0)
      → ((pod next : Pod codec.Text P) → Step pod next → Q pod → Q next)
      → (pod last : Pod codec.Text P) → Reach pod last
      → Q pod
      → Q last
  Reach-keeps Q keeps pod last start q = q
  Reach-keeps Q keeps pod last (after {mid = mid} reached step) q =
      keeps mid last step (Reach-keeps Q keeps pod mid reached q)
