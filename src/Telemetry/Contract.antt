-- ===== src/Telemetry/Contract.antt =====
-- What the sender relies on in a store, whichever of the two classes of src/edge/telemetry/store.py it
-- is: the operations, what they say of the events that wait, and both classes.
pub mod Stores
use Prim.Native.Nat.{ℕ}
use Prim.Native.String.{String}
use mathlib.Core.Path.{◌≡◌}
use mathlib.Core.List.{List, [], ◌++◌}
use trustmodel_edge.Prelude.Lists.{All, take, drop}
use trustmodel_edge.Telemetry.Store.{
  QueuedEvent, TelemetryStore, AnyTelemetryStore, durable, noop, Call, ids, payloads, perform_all,
  dequeue_batch, ack, mark_retry, any_dequeue_batch, any_ack, any_mark_retry,
}
use trustmodel_edge.Telemetry.Store.Interleaved.{NoAck, all_added}
use trustmodel_edge.Telemetry.Sender.{any_perform_all}

-- The operations of a store of type `S`, what others do with it meanwhile, and the abstract view: the
-- events that wait, oldest first, and those that calls of others add.
pub record EventQueue (S P : Type 0) : Type 0 where
  pub dequeue_batch : ℕ → S → List (QueuedEvent P)
  pub ack : List ℕ → S → S
  pub mark_retry : List ℕ → String → S → S
  pub perform_all : List (Call P) → S → S
  pub waiting : S → List P
  pub added : List (Call P) → S → List P

-- From a sound state the operations are those of a queue: a batch is the oldest events, an acknowledged batch is gone
-- whatever was added since, a retry removes nothing, and others only add at the end.
pub record IsLawful {S P : Type 0} (q : EventQueue S P) (IsSound : S → Type 0) : Type 0 where
  pub batch_oldest :
      (n : ℕ) (s : S) → IsSound s → payloads (q.dequeue_batch n s) ≡ take n (q.waiting s)
  pub ack_removes :
      (n : ℕ) (cs : List (Call P)) (s : S)
      → IsSound s
      → All NoAck cs
      → q.waiting (q.ack (ids (q.dequeue_batch n s)) (q.perform_all cs s))
        ≡ drop n (q.waiting s) ++ q.added cs s
  pub retry_keeps :
      (ns : List ℕ) (error : String) (s : S) → q.waiting (q.mark_retry ns error s) ≡ q.waiting s
  pub others_add :
      (cs : List (Call P)) (s : S)
      → IsSound s
      → All NoAck cs
      → q.waiting (q.perform_all cs s) ≡ q.waiting s ++ q.added cs s
  pub none_added : (s : S) → q.added [] s ≡ []
  pub ack_sound : (ns : List ℕ) (s : S) → IsSound s → IsSound (q.ack ns s)
  pub retry_sound :
      (ns : List ℕ) (error : String) (s : S) → IsSound s → IsSound (q.mark_retry ns error s)
  pub others_sound : (cs : List (Call P)) (s : S) → IsSound s → IsSound (q.perform_all cs s)

module _ {P : Type 0} where
  -- `TelemetryStore`
  abbrev pub durable_queue : EventQueue (TelemetryStore P) P
  durable_queue = record {
    dequeue_batch = dequeue_batch;
    ack = ack;
    mark_retry = mark_retry;
    perform_all = perform_all;
    waiting = λ s. payloads s.rows;
    added = all_added;
  }

  abbrev pub any_waiting : AnyTelemetryStore P → List P
  any_waiting (durable s) = payloads s.rows
  any_waiting (noop dropped) = []

  abbrev pub any_added : List (Call P) → AnyTelemetryStore P → List P
  any_added cs (durable s) = all_added cs s
  any_added cs (noop dropped) = []

  -- `AnyTelemetryStore`, that is either of the two
  abbrev pub any_queue : EventQueue (AnyTelemetryStore P) P
  any_queue = record {
    dequeue_batch = any_dequeue_batch;
    ack = any_ack;
    mark_retry = any_mark_retry;
    perform_all = any_perform_all;
    waiting = any_waiting;
    added = any_added;
  }
