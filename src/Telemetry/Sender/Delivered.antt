-- ===== src/Telemetry/Sender/Delivered.antt =====
-- What becomes of every event between src/edge/telemetry/store.py and the gateway.
use Prim.Native.Nat.{ℕ}
use mathlib.Core.Path.{◌≡◌, refl, sym, ap, ◌∙◌, subst}
use mathlib.Core.Logic.{inl, inr}
use mathlib.Core.Bool.{Bool, true, false}
use mathlib.Core.List.{List, [], ◌∷◌, ◌++◌, append-nil, append_assoc}
use trustmodel_edge.Prelude.Tests.{if◌then◌else◌, Bool-cases}
use trustmodel_edge.Prelude.Lists.{All, take, drop, is_empty, take_again, take-append-drop}
use trustmodel_edge.Telemetry.Store.{
  TelemetryStore, AnyTelemetryStore, durable, noop, payloads, dequeue_batch, any_dequeue_batch, ack,
  any_ack, mark_retry, any_mark_retry, Call, perform_all,
}
use trustmodel_edge.Telemetry.Store.Queue.{
  IsValid, ack-IsValid, mark_retry-IsValid, perform_all-IsValid,
}
use trustmodel_edge.Telemetry.Store.Interleaved.{NoAck, all_added, payloads-perform_all}
use trustmodel_edge.Telemetry.Sender.{
  bump_backoff, retry_later, Answer, TelemetrySender, any_perform_all, tick,
}
use trustmodel_edge.Telemetry.Sender.Ticks.{is_final, heard, stored, sender, Ticked, tick-Ticked}
use trustmodel_edge.Telemetry.Contract.{any_added}
use trustmodel_edge.Telemetry.Sender.Kept.{IsClosed, kept-tick}

-- What others call before a tick, the answer to the tick, and what they call while it waits.
abbrev pub Turn : Type 0 → Type 0
Turn P = List (Call P) × Answer × List (Call P)

abbrev pub IsQuiet : {P : Type 0} → Turn P → Type 0
IsQuiet (before, answer, meanwhile) = All NoAck before × All NoAck meanwhile

module _ {P : Type 0} where
  -- The equations of one turn and of the turns behind it.
  pub joined :
      (sent out last kept kept' held added accepted' new : List P)
      → held ≡ kept ++ added
      → sent ++ kept' ≡ held ++ accepted'
      → out ++ last ≡ kept' ++ new
      → (sent ++ out) ++ last ≡ kept ++ (added ++ (accepted' ++ new))
  joined sent out last kept kept' held added accepted' new e f g =
      append_assoc sent out last
      ∙ ap (λ l. sent ++ l) g
      ∙ sym (append_assoc sent kept' new)
      ∙ ap (λ l. l ++ new) f
      ∙ append_assoc held accepted' new
      ∙ ap (λ l. l ++ (accepted' ++ new)) e
      ∙ append_assoc kept added (accepted' ++ new)

module _ {P : Type 0} where
  -- The events that are accepted while a tick waits; one with nothing to send does not wait.
  abbrev pub accepted : Answer → List (Call P) → ℕ → TelemetryStore P → List P
  accepted answer meanwhile batch_size s =
      if is_empty (dequeue_batch batch_size s) then [] else all_added (heard answer meanwhile) s

  module _ (s : TelemetryStore P) (batch_size flush_interval backoff : ℕ) (answer : Answer)
      (meanwhile : List (Call P)) where
    abbrev ticked : TelemetrySender P × ℕ
    ticked = tick answer meanwhile (sender s batch_size flush_interval backoff)

    balanced :
        (final : Bool) (new : List P) (r : TelemetrySender P × ℕ)
        → Ticked s batch_size flush_interval backoff final new r
        → take r.1 (payloads s.rows) ++ stored r.0.store ≡ payloads s.rows ++ new
    balanced true new (t, sent) (rest, count, _) =
        ap (λ n. take n (payloads s.rows) ++ stored t.store) count
        ∙ ap (λ xs. xs ++ stored t.store) (take_again batch_size (payloads s.rows))
        ∙ ap (λ ys. take batch_size (payloads s.rows) ++ ys) rest
        ∙ sym (
            append_assoc (take batch_size (payloads s.rows)) (drop batch_size (payloads s.rows))
              new)
        ∙ ap (λ xs. xs ++ new) (take-append-drop batch_size (payloads s.rows))
    balanced false new (t, sent) (rest, count, _) =
        ap (λ n. take n (payloads s.rows) ++ stored t.store) count ∙ rest

    tick_idle :
        is_empty (dequeue_batch batch_size s) ≡ true
        → ticked ≡ (sender s batch_size flush_interval backoff, 0)
    unfolding tick any_dequeue_batch
    tick_idle e = rw (e, tick)

    tick_balanced :
        IsValid s
        → All NoAck meanwhile
        → take ticked.1 (payloads s.rows) ++ stored ticked.0.store
          ≡ payloads s.rows ++ accepted answer meanwhile batch_size s
    tick_balanced valid quiet = elim (Bool-cases (is_empty (dequeue_batch batch_size s))) [
      | inl e ↦ rw (tick_idle e, e) (sym (append-nil (payloads s.rows)))
      | inr e ↦ rw e (
          balanced (is_final answer) (all_added (heard answer meanwhile) s) ticked
            (tick-Ticked s batch_size flush_interval backoff valid meanwhile quiet answer e))
    ]

  -- A durable queue that is valid, and its size of a batch.
  abbrev IsBacked : ℕ → TelemetrySender P → Type 0
  IsBacked batch_size t =
      (s : TelemetryStore P) × (t.store ≡ durable s) × IsValid s × (t.batch_size ≡ batch_size)

  moved :
      (batch_size : ℕ) (f : AnyTelemetryStore P → AnyTelemetryStore P)
      (g : TelemetryStore P → TelemetryStore P) (t : TelemetrySender P)
      → ((s : TelemetryStore P) → f (durable s) ≡ durable (g s))
      → ((s : TelemetryStore P) → IsValid s → IsValid (g s))
      → IsBacked batch_size t
      → IsBacked batch_size (record t { store = f t.store })
  moved batch_size f g t same keeps (s, e, valid, size) =
      (g s, ap f e ∙ same s, keeps s valid, size)

  IsBacked-IsClosed : (batch_size : ℕ) → IsClosed (IsBacked batch_size)
  unfolding retry_later bump_backoff any_ack any_mark_retry
  IsBacked-IsClosed batch_size = record {
    acks =
        λ ns t b. moved batch_size (any_ack ns) (ack ns) t (λ s. refl) (λ s v. ack-IsValid ns v) b;
    retries = λ ns error t b.
        moved batch_size (any_mark_retry ns error) (mark_retry ns error) t (λ s. refl)
          (λ s v. mark_retry-IsValid ns error v) b;
    hears = λ cs t b.
        moved batch_size (any_perform_all cs) (perform_all cs) t (λ s. refl)
          (λ s v. perform_all-IsValid cs s v) b;
    resets = λ t b. b;
  }

  abbrev any_accepted : Answer → List (Call P) → ℕ → AnyTelemetryStore P → List P
  any_accepted answer meanwhile batch_size (durable s) = accepted answer meanwhile batch_size s
  any_accepted answer meanwhile batch_size (noop dropped) = []

  abbrev called : List (Call P) → TelemetrySender P → TelemetrySender P
  called cs t = record t { store = any_perform_all cs t.store }

  -- The sender after the turns, the events that were sent, and the events that were accepted.
  abbrev pub shipped : List (Turn P) → TelemetrySender P → TelemetrySender P × List P × List P
  shipped [] t = (t, [], [])
  shipped ((before, answer, meanwhile) ∷ turns) t =
      let t' = called before t in
      let (t'', sent) = tick answer meanwhile t' in
      let (last, out, new) = shipped turns t'' in
      (
        last,
        take sent (stored t'.store) ++ out,
        any_added before t.store ++ (any_accepted answer meanwhile t'.batch_size t'.store ++ new),
      )

  called-stored :
      (cs : List (Call P)) (o : AnyTelemetryStore P) (s : TelemetryStore P)
      → o ≡ durable s
      → All NoAck cs
      → stored (any_perform_all cs o) ≡ stored o ++ any_added cs o
  called-stored cs (durable r) s e quiet = payloads-perform_all cs r quiet
  called-stored cs (noop dropped) s e quiet = absurd (cc)

  turn_balanced :
      (answer : Answer) (meanwhile : List (Call P)) (t : TelemetrySender P) (s : TelemetryStore P)
      → t.store ≡ durable s
      → IsValid s
      → All NoAck meanwhile
      → take (tick answer meanwhile t).1 (stored t.store)
          ++ stored (tick answer meanwhile t).0.store
        ≡ stored t.store ++ any_accepted answer meanwhile t.batch_size t.store
  turn_balanced answer meanwhile t s e valid quiet =
      let same : t ≡ sender s t.batch_size t.flush_interval t.backoff =
        ap (λ o. record t { store = o }) e in
      subst
        (λ u.
          take (tick answer meanwhile u).1 (stored u.store)
            ++ stored (tick answer meanwhile u).0.store
          ≡ stored u.store ++ any_accepted answer meanwhile u.batch_size u.store)
        (sym same)
        (tick_balanced s t.batch_size t.flush_interval t.backoff answer meanwhile valid quiet)

  -- No event is lost, doubled or moved: on a valid durable queue, over any turns of the sender and of
  -- the others, who add and retry but take nothing out, the events that the ticks report as sent (for
  -- which the answer was 2xx, 400 or 422), followed by those that still wait, are the ones that waited at
  -- first, followed by those that were accepted since, each in its order.
  pub shipped-fifo :
      (turns : List (Turn P)) (t : TelemetrySender P) (s : TelemetryStore P)
      → t.store ≡ durable s
      → IsValid s
      → All IsQuiet turns
      → (shipped turns t).1 ++ stored (shipped turns t).0.store
        ≡ stored t.store ++ (shipped turns t).2
  shipped-fifo [] t s e valid quiet = sym (append-nil (stored t.store))
  shipped-fifo ((before, answer, meanwhile) ∷ turns) t s e valid ((quiet, quiet'), rest) =
      let (s', e', valid', size) =
        (IsBacked-IsClosed t.batch_size).hears before t (s, e, valid, refl) in
      let (s'', e'', valid'', _) =
        kept-tick (IsBacked t.batch_size) (IsBacked-IsClosed t.batch_size) answer meanwhile
          (called before t) (s', e', valid', size) in
      joined _ _ _ _ _ _ _ _ _ (called-stored before t.store s e quiet)
        (turn_balanced answer meanwhile (called before t) s' e' valid' quiet')
        (shipped-fifo turns (tick answer meanwhile (called before t)).0 s'' e'' valid'' rest)
