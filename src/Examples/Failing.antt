-- ===== src/Examples/Failing.antt =====
-- The sender (src/edge/telemetry/sender.py) with failing ticks, on the two events of Examples/Shipping.
use Prim.Native.String.{String}
use Prim.Native.Nat.{ℕ, ◌≤◌}
use mathlib.Core.Path.{◌≡◌, refl, sym, subst}
use mathlib.Core.Bool.{false}
use mathlib.Core.List.{List, [], ◌∷◌, ◌++◌, Sublist, map}
use native.Mathlib.Omega.{arith}
use trustmodel_edge.Prelude.Lists.{length}
use trustmodel_edge.Telemetry.Store.{durable, Call, enqueued, enqueue, any_dequeue_batch, any_ack}
use trustmodel_edge.Telemetry.Sender.{
  TelemetrySender, Answer, transport_failed, mint_failed, status,
}
use trustmodel_edge.Telemetry.Sender.Kept.{IsValidStore}
use trustmodel_edge.Telemetry.Contract.{IsLawful, any_queue}
use trustmodel_edge.Telemetry.Contract.Stores.{any_queue-IsLawful}
use trustmodel_edge.Telemetry.Sender.Failing.{
  nothing_fails, reads_fail, posts_fail, writes_fail, tick_raising,
}
use trustmodel_edge.Telemetry.Sender.Failing.Lossless.{Turn, shipped, shipped_at_least_once}
use trustmodel_edge.Telemetry.Sender.Failing.Recovers.{answering, shipped-recovers}
use trustmodel_edge.Examples.Shipping.{queue, queue-IsValid}

any_queue-IsLawful_example : IsLawful (any_queue {P = String}) IsValidStore
any_queue-IsLawful_example = any_queue-IsLawful {P = String}

abbrev worker : TelemetrySender String
worker = record { store = durable queue; batch_size = 1; flush_interval = 5000; backoff = 40000 }

-- The first `ack` after a 200 raises, so the gateway gets "a" twice; then the table cannot be read.
abbrev turns : List (Turn String)
turns =
    (enqueued false 6 "c" ∷ [], (writes_fail, status 200 "", enqueued false 7 "d" ∷ []))
    ∷ ([], (nothing_fails, status 200 "", []))
    ∷ ([], (reads_fail, status 200 "", []))
    ∷ ([], (posts_fail, status 200 "", []))
    ∷ []

shipped_at_least_once_example :
    ((shipped any_queue turns worker).1
        ++ any_queue.waiting (shipped any_queue turns worker).0.store
      ≡ any_queue.waiting worker.store ++ (shipped any_queue turns worker).3)
    × Sublist (shipped any_queue turns worker).1 (shipped any_queue turns worker).2
shipped_at_least_once_example =
    shipped_at_least_once any_queue IsValidStore any_queue-IsLawful turns worker queue-IsValid
      (((tt, tt), (tt, tt)), ((tt, tt), ((tt, tt), ((tt, tt), tt))))

twice_answered : (shipped any_queue turns worker).2 ≡ "a" ∷ "a" ∷ []
unfolding tick_raising enqueue any_dequeue_batch
twice_answered = refl

once_sent : (shipped any_queue turns worker).1 ≡ "a" ∷ []
unfolding tick_raising enqueue any_dequeue_batch any_ack
once_sent = refl

abbrev rounds : List (Answer × List (Call String))
rounds =
    (mint_failed "no certificate", [])
    ∷ (transport_failed "reset", enqueued false 6 "c" ∷ [])
    ∷ (status 200 "", [])
    ∷ []

still_wait : any_queue.waiting (shipped any_queue turns worker).0.store ≡ "b" ∷ "c" ∷ []
unfolding tick_raising enqueue any_dequeue_batch any_ack
still_wait = refl

abbrev codes : List ℕ
codes = 422 ∷ 200 ∷ []

shipped-recovers_example :
    (any_queue.waiting (shipped any_queue (turns ++ map answering codes) worker).0.store ≡ [])
    × ((shipped any_queue (turns ++ map answering codes) worker).1
        ≡ any_queue.waiting worker.store
          ++ (shipped any_queue (turns ++ map answering codes) worker).3)
shipped-recovers_example =
    shipped-recovers any_queue IsValidStore any_queue-IsLawful turns codes worker queue-IsValid
      (omega arith) (((tt, tt), (tt, tt)), ((tt, tt), ((tt, tt), ((tt, tt), tt))))
      (refl, (refl, tt)) (subst (λ xs. length xs ≤ 2) (sym still_wait) (omega arith))
