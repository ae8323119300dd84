-- ===== src/App/Private.antt =====
-- What leaves a pod of src/edge/app.py, whose handler of decisions is `decide`
-- (src/edge/routes/decide.py), through its telemetry.
use Prim.Native.Nat.{ℕ}
use Prim.Native.Char.{Char}
use Prim.Native.String.{String}
use mathlib.Core.Path.{◌≡◌, sym, ap, ◌∙◌, subst}
use mathlib.Core.Logic.{inl, inr}
use mathlib.Core.Bool.{Bool, true}
use mathlib.Core.Option.{Option}
use mathlib.Core.List.{List}
use trustmodel_edge.Prelude.Lists.{All, All-map}
use trustmodel_edge.Value.{Value, PyText}
use trustmodel_edge.Config.{Settings}
use trustmodel_edge.Policy.Bundle.{AuthorizedClient}
use trustmodel_edge.Policy.Cache.{PolicyCache}
use trustmodel_edge.Policy.Disk.{Codec}
use trustmodel_edge.Telemetry.Payload.{AuditEvent}
use trustmodel_edge.Telemetry.Store.{
  AnyTelemetryStore, Call, enqueued, acked, retry_marked, any_dequeue_batch, any_enqueue,
}
use trustmodel_edge.Telemetry.Store.Holding.{
  OfRow, Holds, HoldsOf, any_enqueue-Holds, any_ack-Holds, any_mark_retry-Holds,
  any_perform_all-Holds, any_dequeue_batch-Holds,
}
use trustmodel_edge.Telemetry.Contract.{any_queue}
use trustmodel_edge.Telemetry.Sender.{TelemetrySender}
use trustmodel_edge.Telemetry.Sender.Failing.Kept.{IsClosed, kept-run_round_catching}
use trustmodel_edge.Identity.{Formats}
use trustmodel_edge.Routes.Bearer.{Moment}
use trustmodel_edge.Routes.Decide.{DecideRequest, Edge, Services, decide}
use trustmodel_edge.Routes.Decide.Queued.{IsDecided, Queues, decide-Queues}
use trustmodel_edge.Routes.Decide.Private.{IsPrivate, IsDecided-IsPrivate}
use trustmodel_edge.App.{Pod}
use trustmodel_edge.App.Steps.{Step, beats, syncs, sends, decides}

-- A property of events that every event of a decision has, over any turns.
module _ (Q : AuditEvent → Type 0) where
  -- Others put in only such events.
  abbrev AllHoldOf : List (Call AuditEvent) → Type 0
  AllHoldOf = All (HoldsOf Q)

  abbrev HasOnly : TelemetrySender AuditEvent → Type 0
  HasOnly w = Holds Q w.store

  HasOnly-IsClosed : IsClosed any_queue AllHoldOf HasOnly
  HasOnly-IsClosed = record {
    acks = λ ns w h. any_ack-Holds Q ns w.store h;
    retries = λ ns error w h. any_mark_retry-Holds Q ns error w.store h;
    hears = λ cs w es h. any_perform_all-Holds Q cs w.store es h;
    resets = λ w h. h;
  }

module _ (services : Services) (cfg : Settings) (codec : Codec) (py : PyText)
    (validate_client : Value → Option AuthorizedClient) (formats : Formats)
    (decimal : Char → Option ℕ) (multi : Bool) where
  abbrev pub Turn : Pod codec.Text AuditEvent → Pod codec.Text AuditEvent → Type 0
  Turn = Step codec py validate_client formats decimal multi

  -- The events that a turn puts into the queue are those of decisions.
  abbrev pub IsOurs : {pod next : Pod codec.Text AuditEvent} → Turn pod next → Type 0
  IsOurs (beats state tick h e) = Unit {0}
  IsOurs (syncs round) = Unit {0}
  IsOurs (sends (trouble, answer, meanwhile)) = All (HoldsOf (IsDecided services cfg)) meanwhile
  IsOurs (decides fails now event) = IsDecided services cfg event

  -- The turns of a pod on which nothing but its decisions puts events into the queue.
  pub data Run (pod : Pod codec.Text AuditEvent) : Pod codec.Text AuditEvent → Type 0 where
    begin : Run pod pod
    go_on :
        {mid last : Pod codec.Text AuditEvent}
        → Run pod mid
        → (turn : Turn mid last) → IsOurs turn
        → Run pod last

  abbrev with_store :
      Pod codec.Text AuditEvent → AnyTelemetryStore AuditEvent → Pod codec.Text AuditEvent
  with_store pod store = record pod { sender = record pod.sender { store = store } }

  -- A decision on the queue of the pod is such a turn, or none.
  pub decide-Run :
      (pod : Pod codec.Text AuditEvent) (cache : PolicyCache) (at : Moment) (body : DecideRequest)
      (authorization : String) (edge : Edge)
      → edge.store ≡ pod.sender.store
      → Run pod (with_store pod (decide services cfg cache at body authorization edge).0.store)
  decide-Run pod cache at body authorization edge same =
      queued _ (decide-Queues services cfg cache at body authorization edge)
    where
      queued :
          (store : AnyTelemetryStore AuditEvent)
          → Queues services cfg cache at body edge.store store
          → Run pod (with_store pod store)
      queued store (inl e) = subst (λ s. Run pod (with_store pod s)) (sym (e ∙ same)) begin
      queued store (inr (event, decided, e)) =
          subst (λ s. Run pod (with_store pod s))
            (sym (e ∙ ap (λ s. (any_enqueue at.enqueue_fails at.enqueued_at event s).0) same))
            (go_on begin (decides at.enqueue_fails at.enqueued_at event) decided)

  module _ (Q : AuditEvent → Type 0)
      (of_decisions : (event : AuditEvent) → IsDecided services cfg event → Q event) where
    call-HoldsOf : (c : Call AuditEvent) → HoldsOf (IsDecided services cfg) c → HoldsOf Q c
    call-HoldsOf (enqueued fails now event) d = of_decisions event d
    call-HoldsOf (acked ns) d = tt
    call-HoldsOf (retry_marked ns error) d = tt

    turn-HasOnly :
        (pod next : Pod codec.Text AuditEvent) (turn : Turn pod next)
        → IsOurs turn
        → HasOnly Q pod.sender
        → HasOnly Q next.sender
    turn-HasOnly pod next (beats state tick e f) ours h = h
    turn-HasOnly pod next (syncs round) ours h = h
    turn-HasOnly pod next (sends (trouble, answer, meanwhile)) ours h =
        kept-run_round_catching any_queue (AllHoldOf Q) (HasOnly Q) (HasOnly-IsClosed Q)
          (trouble, answer, meanwhile) pod.sender (All-map call-HoldsOf meanwhile ours) h
    turn-HasOnly pod next (decides fails now event) ours h =
        any_enqueue-Holds Q fails now event pod.sender.store (of_decisions event ours) h

    pub Run-HasOnly :
        (pod last : Pod codec.Text AuditEvent)
        → Run pod last
        → HasOnly Q pod.sender
        → HasOnly Q last.sender
    Run-HasOnly pod last begin h = h
    Run-HasOnly pod last (go_on {mid = mid} before turn ours) h =
        turn-HasOnly mid last turn ours (Run-HasOnly pod mid before h)

  -- With `telemetry_omit_payload`, on a pod on which nothing but its decisions puts events into the queue:
  -- at every time, however heartbeats, syncs, the sender and decisions take turns and whatever raises,
  -- every event in the queue, and so every event of the next batch that is posted, has no arguments of
  -- the action, and no subject but under the keyed hash, if that was so of the events that the pod found
  -- in the queue.
  pub Run-IsPrivate :
      (pod last : Pod codec.Text AuditEvent)
      → cfg.telemetry_omit_payload ≡ true
      → Run pod last
      → Holds (IsPrivate services cfg) pod.sender.store
      → Holds (IsPrivate services cfg) last.sender.store
        × All
            (OfRow (IsPrivate services cfg))
            (any_dequeue_batch last.sender.batch_size last.sender.store)
  Run-IsPrivate pod last omits run h =
      let holds =
        Run-HasOnly (IsPrivate services cfg) (IsDecided-IsPrivate services cfg omits) pod last run
          h in
      (
        holds,
        any_dequeue_batch-Holds (IsPrivate services cfg) last.sender.batch_size last.sender.store
            holds,
      )
