-- ===== src/Telemetry/Contract/Stores.antt =====
-- Both classes of src/edge/telemetry/store.py are what the sender takes them for.
use Prim.Native.Nat.{ℕ, zero, suc}
use Prim.Native.String.{String}
use mathlib.Core.Path.{◌≡◌, refl}
use mathlib.Core.List.{List, [], ◌++◌}
use trustmodel_edge.Prelude.Lists.{All, take, drop}
use trustmodel_edge.Telemetry.Store.{
  AnyTelemetryStore, durable, noop, Call, ids, payloads, any_dequeue_batch, any_ack, any_mark_retry,
}
use trustmodel_edge.Telemetry.Store.Queue.{
  IsValid, ack-IsValid, mark_retry-IsValid, perform_all-IsValid,
}
use trustmodel_edge.Telemetry.Store.Interleaved.{NoAck, ack-batch, payloads-perform_all}
use trustmodel_edge.Telemetry.Sender.{any_perform_all}
use trustmodel_edge.Telemetry.Sender.Ticks.{payloads-mark_retry}
use trustmodel_edge.Telemetry.Sender.Kept.{
  IsValidStore, any_ack-IsValidStore, any_mark_retry-IsValidStore, any_perform_all-IsValidStore,
}
use trustmodel_edge.Telemetry.Contract.{IsLawful, durable_queue, any_queue, any_waiting, any_added}

module _ {P : Type 0} where
  -- The durable store keeps the contract of a queue from every state that is valid.
  pub durable_queue-IsLawful : IsLawful (durable_queue {P = P}) IsValid
  durable_queue-IsLawful = record {
    batch_oldest = λ n s v. (ack-batch n s [] v tt).0;
    ack_removes = λ n cs s v quiet. (ack-batch n s cs v quiet).1;
    retry_keeps = payloads-mark_retry;
    others_add = λ cs s v quiet. payloads-perform_all cs s quiet;
    none_added = λ s. refl;
    ack_sound = λ ns s v. ack-IsValid ns v;
    retry_sound = λ ns error s v. mark_retry-IsValid ns error v;
    others_sound = λ cs s v. perform_all-IsValid cs s v;
  }

  any_batch-waiting :
      (n : ℕ) (s : AnyTelemetryStore P)
      → IsValidStore s
      → payloads (any_dequeue_batch n s) ≡ take n (any_waiting s)
  unfolding any_dequeue_batch
  any_batch-waiting n (durable s) v = durable_queue-IsLawful.batch_oldest n s v
  any_batch-waiting zero (noop dropped) v = refl
  any_batch-waiting (suc n) (noop dropped) v = refl

  any_ack-waiting :
      (n : ℕ) (cs : List (Call P)) (s : AnyTelemetryStore P)
      → IsValidStore s
      → All NoAck cs
      → any_waiting (any_ack (ids (any_dequeue_batch n s)) (any_perform_all cs s))
        ≡ drop n (any_waiting s) ++ any_added cs s
  unfolding any_ack any_dequeue_batch
  any_ack-waiting n cs (durable s) v quiet = durable_queue-IsLawful.ack_removes n cs s v quiet
  any_ack-waiting zero cs (noop dropped) v quiet = refl
  any_ack-waiting (suc n) cs (noop dropped) v quiet = refl

  any_mark_retry-waiting :
      (ns : List ℕ) (error : String) (s : AnyTelemetryStore P)
      → any_waiting (any_mark_retry ns error s) ≡ any_waiting s
  unfolding any_mark_retry
  any_mark_retry-waiting ns error (durable s) = durable_queue-IsLawful.retry_keeps ns error s
  any_mark_retry-waiting ns error (noop dropped) = refl

  any_perform_all-waiting :
      (cs : List (Call P)) (s : AnyTelemetryStore P)
      → IsValidStore s
      → All NoAck cs
      → any_waiting (any_perform_all cs s) ≡ any_waiting s ++ any_added cs s
  any_perform_all-waiting cs (durable s) v quiet = payloads-perform_all cs s quiet
  any_perform_all-waiting cs (noop dropped) v quiet = refl

  any_none_added : (s : AnyTelemetryStore P) → any_added [] s ≡ []
  any_none_added (durable s) = refl
  any_none_added (noop dropped) = refl

  -- So do the two classes taken together: nothing waits in the one that drops every event.
  pub any_queue-IsLawful : IsLawful (any_queue {P = P}) IsValidStore
  any_queue-IsLawful = record {
    batch_oldest = any_batch-waiting;
    ack_removes = any_ack-waiting;
    retry_keeps = any_mark_retry-waiting;
    others_add = any_perform_all-waiting;
    none_added = any_none_added;
    ack_sound = any_ack-IsValidStore;
    retry_sound = any_mark_retry-IsValidStore;
    others_sound = any_perform_all-IsValidStore;
  }
