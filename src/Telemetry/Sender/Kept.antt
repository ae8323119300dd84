-- ===== src/Telemetry/Sender/Kept.antt =====
-- What the turns of src/edge/telemetry/sender.py keep of the sender and its queue.
use Prim.Native.Nat.{ℕ}
use Prim.Native.String.{String}
use mathlib.Core.Logic.{inl, inr}
use mathlib.Core.Bool.{Bool, ◌||◌}
use mathlib.Core.List.{List}
use trustmodel_edge.Prelude.Tests.{ltb, Bool-cases}
use trustmodel_edge.Prelude.Lists.{is_empty}
use trustmodel_edge.Telemetry.Store.{
  AnyTelemetryStore, durable, noop, Call, ids, any_enqueue, any_dequeue_batch, any_ack,
  any_mark_retry,
}
use trustmodel_edge.Telemetry.Store.Queue.{
  IsValid, enqueue-IsValid, ack-IsValid, mark_retry-IsValid, perform_all-IsValid,
}
use trustmodel_edge.Telemetry.Sender.{
  Answer, mint_failed, transport_failed, status, TelemetrySender, is_success, is_bad_payload,
  any_perform_all, bump_backoff, retry_later, settle, awaited, tick, run_round,
}

module _ {P : Type 0} where
  -- A property of the sender that its elementary changes keep.
  pub record IsClosed (Q : TelemetrySender P → Type 0) : Type 0 where
    pub acks :
        (ns : List ℕ) (t : TelemetrySender P) → Q t → Q (record t { store = any_ack ns t.store })
    pub retries :
        (ns : List ℕ) (error : String) (t : TelemetrySender P) → Q t → Q (retry_later ns error t)
    pub hears :
        (cs : List (Call P)) (t : TelemetrySender P)
        → Q t
        → Q (record t { store = any_perform_all cs t.store })
    pub resets : (t : TelemetrySender P) → Q t → Q (record t { backoff = t.flush_interval })

  module _ (Q : TelemetrySender P → Type 0) (closed : IsClosed Q) where
    kept-settle :
        (ns : List ℕ) (answer : Answer) (t : TelemetrySender P) → Q t → Q (settle ns answer t).0
    unfolding settle
    kept-settle ns (mint_failed error) t q = closed.retries ns _ t q
    kept-settle ns (transport_failed error) t q = closed.retries ns _ t q
    kept-settle ns (status code error) t q =
        elim (Bool-cases (is_success code || is_bad_payload code)) [
          | inl e ↦ rw (e, settle) (closed.acks ns t q)
          | inr e ↦ rw (e, settle) (closed.retries ns _ t q)
        ]

    kept-awaited :
        (answer : Answer) (meanwhile : List (Call P)) (t : TelemetrySender P)
        → Q t
        → Q (awaited answer meanwhile t)
    kept-awaited (mint_failed error) meanwhile t q = q
    kept-awaited (transport_failed error) meanwhile t q = closed.hears meanwhile t q
    kept-awaited (status code error) meanwhile t q = closed.hears meanwhile t q

    pub kept-tick :
        (answer : Answer) (meanwhile : List (Call P)) (t : TelemetrySender P)
        → Q t
        → Q (tick answer meanwhile t).0
    unfolding tick
    kept-tick answer meanwhile t q =
        elim (Bool-cases (is_empty (any_dequeue_batch t.batch_size t.store))) [
          | inl e ↦ rw (e, tick) q
          | inr e ↦
              rw (e, tick)
                (kept-settle (ids (any_dequeue_batch t.batch_size t.store)) answer
                  (awaited answer meanwhile t) (kept-awaited answer meanwhile t q))
        ]

    pub kept-run_round :
        (answer : Answer) (meanwhile : List (Call P)) (t : TelemetrySender P)
        → Q t
        → Q (run_round answer meanwhile t).0
    unfolding run_round
    kept-run_round answer meanwhile t q = elim (Bool-cases (ltb 0 (tick answer meanwhile t).1)) [
      | inl e ↦ rw (e, run_round) (closed.resets _ (kept-tick answer meanwhile t q))
      | inr e ↦ rw (e, run_round) (kept-tick answer meanwhile t q)
    ]

  -- A durable queue is valid.
  abbrev pub IsValidStore : AnyTelemetryStore P → Type 0
  IsValidStore (durable s) = IsValid s
  IsValidStore (noop dropped) = Unit {0}

  abbrev pub HasValidStore : TelemetrySender P → Type 0
  HasValidStore t = IsValidStore t.store

  pub any_ack-IsValidStore :
      (ns : List ℕ) (s : AnyTelemetryStore P) → IsValidStore s → IsValidStore (any_ack ns s)
  unfolding any_ack
  any_ack-IsValidStore ns (durable s) v = ack-IsValid ns v
  any_ack-IsValidStore ns (noop dropped) v = tt

  pub any_mark_retry-IsValidStore :
      (ns : List ℕ) (error : String) (s : AnyTelemetryStore P)
      → IsValidStore s
      → IsValidStore (any_mark_retry ns error s)
  unfolding any_mark_retry
  any_mark_retry-IsValidStore ns error (durable s) v = mark_retry-IsValid ns error v
  any_mark_retry-IsValidStore ns error (noop dropped) v = tt

  pub any_perform_all-IsValidStore :
      (cs : List (Call P)) (s : AnyTelemetryStore P)
      → IsValidStore s
      → IsValidStore (any_perform_all cs s)
  any_perform_all-IsValidStore cs (durable s) v = perform_all-IsValid cs s v
  any_perform_all-IsValidStore cs (noop dropped) v = tt

  pub any_enqueue-IsValidStore :
      (fails : Bool) (now : ℕ) (event : P) (s : AnyTelemetryStore P)
      → IsValidStore s
      → IsValidStore (any_enqueue fails now event s).0
  unfolding any_enqueue
  any_enqueue-IsValidStore fails now event (durable s) v = enqueue-IsValid fails now event v
  any_enqueue-IsValidStore fails now event (noop dropped) v = tt

  pub HasValidStore-IsClosed : IsClosed HasValidStore
  unfolding retry_later bump_backoff
  HasValidStore-IsClosed = record {
    acks = λ ns t v. any_ack-IsValidStore ns t.store v;
    retries = λ ns error t v. any_mark_retry-IsValidStore ns error t.store v;
    hears = λ cs t v. any_perform_all-IsValidStore cs t.store v;
    resets = λ t v. v;
  }
