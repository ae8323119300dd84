-- ===== src/Telemetry/Store/Holding.antt =====
-- What holds of every event in the queue of src/edge/telemetry/store.py goes on to hold, if it holds of
-- those that are put in.
use Prim.Native.Nat.{ℕ, zero, suc}
use Prim.Native.String.{String}
use mathlib.Core.Logic.{inl, inr}
use mathlib.Core.Bool.{Bool, true, false}
use mathlib.Core.List.{List, [], ◌∷◌}
use trustmodel_edge.Prelude.Tests.{leb, Bool-cases}
use trustmodel_edge.Prelude.Lists.{All, All-append, All-filter, All-map, All-of_map, take}
use trustmodel_edge.Prelude.Sort.{sort_by-All}
use trustmodel_edge.Telemetry.Store.{
  QueuedEvent, TelemetryStore, AnyTelemetryStore, durable, noop, Call, enqueued, acked,
  retry_marked, contains, count, retried, enqueue, ack, mark_retry, dequeue_batch, perform_all,
  any_enqueue, any_ack, any_mark_retry, any_dequeue_batch,
}
use trustmodel_edge.Telemetry.Sender.{any_perform_all}

module _ {P : Type 0} (Q : P → Type 0) where
  abbrev pub OfRow : QueuedEvent P → Type 0
  OfRow r = Q r.payload

  -- It holds of every event that waits.
  abbrev pub Holds : AnyTelemetryStore P → Type 0
  Holds (durable s) = All OfRow s.rows
  Holds (noop dropped) = Unit {0}

  -- It holds of the event that a call puts in.
  abbrev pub HoldsOf : Call P → Type 0
  HoldsOf (enqueued fails now event) = Q event
  HoldsOf (acked ns) = Unit {0}
  HoldsOf (retry_marked ns error) = Unit {0}

  enqueue-Holds :
      (fails : Bool) (now : ℕ) (event : P) (s : TelemetryStore P)
      → Q event
      → All OfRow s.rows
      → All OfRow (enqueue fails now event s).0.rows
  unfolding enqueue
  enqueue-Holds true now event s e h = h
  enqueue-Holds false now event s e h = elim (Bool-cases (leb s.max_size (count s))) [
    | inl full ↦ rw (full, enqueue) h
    | inr room ↦ rw (room, enqueue) (All-append OfRow s.rows _ h (e, tt))
  ]

  ack-Holds : (ns : List ℕ) (s : TelemetryStore P) → All OfRow s.rows → All OfRow (ack ns s).rows
  unfolding ack
  ack-Holds [] s h = h
  ack-Holds (n ∷ ns) s h = All-filter OfRow _ s.rows h

  retried-Holds :
      (ns : List ℕ) (error : String) (r : QueuedEvent P) → OfRow r → OfRow (retried ns error r)
  retried-Holds ns error r h = elim (Bool-cases (contains r.id ns)) [
    | inl e ↦ rw e h
    | inr e ↦ rw e h
  ]

  mark_retry-Holds :
      (ns : List ℕ) (error : String) (s : TelemetryStore P)
      → All OfRow s.rows
      → All OfRow (mark_retry ns error s).rows
  unfolding mark_retry
  mark_retry-Holds [] error s h = h
  mark_retry-Holds (n ∷ ns) error s h =
      All-of_map OfRow (retried (n ∷ ns) error) s.rows
        (All-map (retried-Holds (n ∷ ns) error) s.rows h)

  perform_all-Holds :
      (cs : List (Call P)) (s : TelemetryStore P)
      → All HoldsOf cs
      → All OfRow s.rows
      → All OfRow (perform_all cs s).rows
  perform_all-Holds [] s cs-hold h = h
  perform_all-Holds (enqueued fails now event ∷ cs) s (e, es) h =
      perform_all-Holds cs (enqueue fails now event s).0 es (enqueue-Holds fails now event s e h)
  perform_all-Holds (acked ns ∷ cs) s (e, es) h =
      perform_all-Holds cs (ack ns s) es (ack-Holds ns s h)
  perform_all-Holds (retry_marked ns error ∷ cs) s (e, es) h =
      perform_all-Holds cs (mark_retry ns error s) es (mark_retry-Holds ns error s h)

  pub any_enqueue-Holds :
      (fails : Bool) (now : ℕ) (event : P) (s : AnyTelemetryStore P)
      → Q event
      → Holds s
      → Holds (any_enqueue fails now event s).0
  unfolding any_enqueue
  any_enqueue-Holds fails now event (durable s) e h = enqueue-Holds fails now event s e h
  any_enqueue-Holds fails now event (noop dropped) e h = tt

  pub any_ack-Holds : (ns : List ℕ) (s : AnyTelemetryStore P) → Holds s → Holds (any_ack ns s)
  unfolding any_ack
  any_ack-Holds ns (durable s) h = ack-Holds ns s h
  any_ack-Holds ns (noop dropped) h = tt

  pub any_mark_retry-Holds :
      (ns : List ℕ) (error : String) (s : AnyTelemetryStore P)
      → Holds s
      → Holds (any_mark_retry ns error s)
  unfolding any_mark_retry
  any_mark_retry-Holds ns error (durable s) h = mark_retry-Holds ns error s h
  any_mark_retry-Holds ns error (noop dropped) h = tt

  pub any_perform_all-Holds :
      (cs : List (Call P)) (s : AnyTelemetryStore P)
      → All HoldsOf cs
      → Holds s
      → Holds (any_perform_all cs s)
  any_perform_all-Holds cs (durable s) es h = perform_all-Holds cs s es h
  any_perform_all-Holds cs (noop dropped) es h = tt

  All-take : (n : ℕ) (rs : List (QueuedEvent P)) → All OfRow rs → All OfRow (take n rs)
  All-take zero rs h = tt
  All-take (suc n) [] h = tt
  All-take (suc n) (r ∷ rs) (e, h) = (e, All-take n rs h)

  -- It holds of the events of the next batch.
  pub any_dequeue_batch-Holds :
      (n : ℕ) (s : AnyTelemetryStore P) → Holds s → All OfRow (any_dequeue_batch n s)
  unfolding any_dequeue_batch dequeue_batch
  any_dequeue_batch-Holds n (durable s) h = All-take n _ (sort_by-All _ OfRow s.rows h)
  any_dequeue_batch-Holds n (noop dropped) h = tt
