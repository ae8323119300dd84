-- ===== src/Examples/Shipping.antt =====
-- The telemetry queue and its sender (src/edge/telemetry) on a few events.
use Prim.Native.Nat.{ℕ}
use Prim.Native.String.{String}
use mathlib.Core.Path.{◌≡◌, refl}
use mathlib.Core.Bool.{false}
use mathlib.Core.List.{List, [], ◌∷◌}
use native.Mathlib.Omega.{arith}
use trustmodel_edge.Prelude.Lists.{is_empty}
use trustmodel_edge.Telemetry.Store.{
  QueuedEvent, TelemetryStore, Call, enqueued, enqueue, payloads, dequeue_batch, perform_all,
}
use trustmodel_edge.Telemetry.Store.Queue.{IsValid}
use trustmodel_edge.Telemetry.Store.Interleaved.{all_added}
use trustmodel_edge.Telemetry.Sender.{status, tick, flush_now}
use trustmodel_edge.Telemetry.Sender.Ticks.{sender, Ticked, tick-Ticked}
use trustmodel_edge.Telemetry.Sender.Drain.{IsDrained, quiet, flush_now-drains}

abbrev row : ℕ → String → QueuedEvent String
row n p = record { id = n; occurred_at = 5; payload = p; retries = 0; last_error = "" }

-- Two events wait.
abbrev pub queue : TelemetryStore String
queue = record { rows = row 3 "a" ∷ row 4 "b" ∷ []; next_id = 5; max_size = 3; dropped = 0 }

pub queue-IsValid : IsValid queue
queue-IsValid = record {
  ascending = ((omega arith, tt), (tt, tt));
  below = (omega arith, (omega arith, tt));
  bounded = omega arith;
}

abbrev traffic : List (Call String)
traffic = enqueued false 6 "c" ∷ enqueued false 7 "d" ∷ []

-- The third event fits, the fourth is dropped.
one_added : payloads (perform_all traffic queue).rows ≡ "a" ∷ "b" ∷ "c" ∷ []
unfolding enqueue
one_added = refl

some_rows : is_empty (dequeue_batch 1 queue) ≡ false
unfolding dequeue_batch
some_rows = refl

tick-Ticked_example :
    Ticked queue 1 5000 40000 false
      (all_added traffic queue)
      (tick (status 503 "busy") traffic (sender queue 1 5000 40000))
tick-Ticked_example =
    tick-Ticked queue 1 5000 40000 queue-IsValid traffic (tt, (tt, tt)) (status 503 "busy")
      some_rows

flush_now-drains_example : IsDrained 1 5000 5000 2 (
    flush_now 100
      (quiet ((10, status 200 "") ∷ (20, status 422 "") ∷ (30, status 200 "") ∷ []))
      0
      (sender queue 1 5000 5000))
flush_now-drains_example =
    flush_now-drains 1 5000 5000 100 0
      ((10, status 200 "") ∷ (20, status 422 "") ∷ (30, status 200 "") ∷ []) queue queue-IsValid
      (omega arith) ((refl, refl), ((refl, refl), ((refl, refl), tt))) (omega arith)
