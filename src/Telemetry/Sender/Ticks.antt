-- ===== src/Telemetry/Sender/Ticks.antt =====
-- What one `_tick` of src/edge/telemetry/sender.py does to the queue.
use Prim.Native.Nat.{ℕ, ◌*◌, min}
use Prim.Native.String.{String}
use mathlib.Core.Path.{◌≡◌, refl, sym, ap, ◌∙◌}
use mathlib.Core.Logic.{inl, inr}
use mathlib.Core.Bool.{Bool, true, false, ◌||◌}
use mathlib.Core.List.{List, [], ◌∷◌, ◌++◌}
use trustmodel_edge.Prelude.Tests.{Bool-cases}
use trustmodel_edge.Prelude.Lists.{All, length, take, drop, is_empty, length-map}
use trustmodel_edge.Telemetry.Store.{
  QueuedEvent, TelemetryStore, AnyTelemetryStore, durable, noop, ids, payloads, dequeue_batch,
  mark_retry, Call, perform_all,
}
use trustmodel_edge.Telemetry.Store.Queue.{IsValid, payloads-retried}
use trustmodel_edge.Telemetry.Store.Interleaved.{NoAck, all_added, ack-batch, payloads-perform_all}
use trustmodel_edge.Telemetry.Sender.{
  max_backoff, Answer, mint_failed, transport_failed, status, TelemetrySender, is_success,
  is_bad_payload, settle, awaited, tick,
}

-- The gateway took the batch, or refused it as malformed.
abbrev pub is_final : Answer → Bool
is_final (mint_failed _) = false
is_final (transport_failed _) = false
is_final (status code _) = is_success code || is_bad_payload code

-- What runs while the sender waits.
abbrev pub heard : {P : Type 0} → Answer → List (Call P) → List (Call P)
heard (mint_failed _) meanwhile = []
heard (transport_failed _) meanwhile = meanwhile
heard (status _ _) meanwhile = meanwhile

module _ {P : Type 0} where
  -- The payloads in a store of either kind.
  abbrev pub stored : AnyTelemetryStore P → List P
  stored (durable s) = payloads s.rows
  stored (noop dropped) = []

  pub payloads-mark_retry :
      (ns : List ℕ) (error : String) (s : TelemetryStore P)
      → payloads (mark_retry ns error s).rows ≡ payloads s.rows
  unfolding mark_retry
  payloads-mark_retry [] error s = refl
  payloads-mark_retry (n ∷ ns) error s = payloads-retried (n ∷ ns) error s.rows

  module _ (s : TelemetryStore P) (batch_size flush_interval backoff : ℕ) where
    abbrev pub sender : TelemetrySender P
    sender = record {
      store = durable s;
      batch_size = batch_size;
      flush_interval = flush_interval;
      backoff = backoff;
    }

    -- The result of a tick on a queue with rows, by whether the answer was final.
    abbrev pub Ticked : Bool → List P → TelemetrySender P × ℕ → Type 0
    Ticked true new (t, sent) =
        (stored t.store ≡ drop batch_size (payloads s.rows) ++ new)
        × (sent ≡ length (take batch_size (payloads s.rows)))
        × (t.backoff ≡ backoff)
    Ticked false new (t, sent) =
        (stored t.store ≡ payloads s.rows ++ new)
        × (sent ≡ 0)
        × (t.backoff ≡ min (backoff * 2) max_backoff)

    module _ (valid : IsValid s) (meanwhile : List (Call P)) (no_ack : All NoAck meanwhile) where
      abbrev batch : List (QueuedEvent P)
      batch = dequeue_batch batch_size s

      length-ids : length (ids batch) ≡ length (take batch_size (payloads s.rows))
      length-ids =
          length-map _ batch
          ∙ sym (length-map (λ r. r.payload) batch)
          ∙ ap length (ack-batch batch_size s meanwhile valid no_ack).0

      payloads-retry :
          (error : String) (cs : List (Call P))
          → All NoAck cs
          → payloads (mark_retry (ids batch) error (perform_all cs s)).rows
            ≡ payloads s.rows ++ all_added cs s
      payloads-retry error cs quiet =
          payloads-mark_retry (ids batch) error (perform_all cs s) ∙ payloads-perform_all cs s quiet

      settle-Ticked :
          (answer : Answer)
          → Ticked
              (is_final answer)
              (all_added (heard answer meanwhile) s)
              (settle (ids batch) answer (awaited answer meanwhile sender))
      unfolding settle
      settle-Ticked (mint_failed error) = (payloads-retry _ [] tt, refl, refl)
      settle-Ticked (transport_failed error) = (payloads-retry _ meanwhile no_ack, refl, refl)
      settle-Ticked (status code error) =
          elim (Bool-cases (is_success code || is_bad_payload code)) [
            | inl e ↦
                rw (e, settle) ((ack-batch batch_size s meanwhile valid no_ack).1, length-ids, refl)
            | inr e ↦ rw (e, settle) (payloads-retry _ meanwhile no_ack, refl, refl)
          ]

      -- On a queue with rows: after a 2xx, 400 or 422 the oldest batch is gone, and its size is
      -- returned; after any other answer, a transport error or a missing certificate every row stays,
      -- 0 is returned and the backoff doubles up to its maximum. In both cases the events that were
      -- accepted during the request stand behind the others.
      pub tick-Ticked :
          (answer : Answer)
          → is_empty batch ≡ false
          → Ticked
              (is_final answer)
              (all_added (heard answer meanwhile) s)
              (tick answer meanwhile sender)
      unfolding tick
      tick-Ticked answer some_rows = rw (some_rows, tick) (settle-Ticked answer)
