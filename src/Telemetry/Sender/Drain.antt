-- ===== src/Telemetry/Sender/Drain.antt =====
-- `flush_now` of src/edge/telemetry/sender.py empties the queue.
use Prim.Native.Nat.{ℕ, zero, suc, ◌+◌, ◌-◌, ◌*◌, ◌≤◌, ◌<◌, min}
use mathlib.Core.Path.{◌≡◌, refl, sym, ap, ◌∙◌}
use mathlib.Core.Logic.{inl, inr}
use mathlib.Core.Bool.{Bool, true, false}
use mathlib.Core.List.{List, [], ◌∷◌}
use native.Mathlib.Omega.{arith}
use trustmodel_edge.Prelude.Tests.{ltb, nat_eq, Bool-cases}
use trustmodel_edge.Prelude.Lists.{
  All, length, is_empty, length-map, length-take, length-drop, is_empty-length, empty_length,
  length-zero,
}
use trustmodel_edge.Telemetry.Store.{QueuedEvent, TelemetryStore, ids, dequeue_batch, ack, Call}
use trustmodel_edge.Telemetry.Store.Queue.{IsValid, ack-IsValid}
use trustmodel_edge.Telemetry.Store.Fifo.{ack-take, dequeue_batch-take}
use trustmodel_edge.Telemetry.Sender.{
  Answer, mint_failed, transport_failed, status, TelemetrySender, settle, awaited, tick, flush_now,
}
use trustmodel_edge.Telemetry.Sender.Ticks.{is_final, stored, sender}

-- Rounds while nobody else uses the queue.
abbrev pub quiet : {P : Type 0} → List (ℕ × Answer) → List (ℕ × Answer × List (Call P))
quiet [] = []
quiet ((time, answer) ∷ rounds) = (time, answer, []) ∷ quiet rounds

-- A round before the deadline, with an answer that settles the batch.
abbrev IsPrompt : ℕ → ℕ × Answer → Type 0
IsPrompt end_at (time, answer) = (ltb time end_at ≡ true) × (is_final answer ≡ true)

suc-times : (k b : ℕ) → suc k * b ≡ k * b + b
suc-times k b = ground arith

-- A product that is not 0 is at least its factor.
factor-least : (k b : ℕ) → 0 < k * b → b ≤ k * b
factor-least zero b h = absurd (omega arith)
factor-least (suc k) b h = omega (arith, suc-times k b)

nat_eq_zero : (n : ℕ) → 0 < n → nat_eq n 0 ≡ false
nat_eq_zero n h = ground arith

module _ {P : Type 0} (batch_size flush_interval backoff : ℕ) where
  abbrev of : TelemetryStore P → TelemetrySender P
  of s = sender s batch_size flush_interval backoff

  abbrev batch : TelemetryStore P → List (QueuedEvent P)
  batch s = dequeue_batch batch_size s

  tick_empty :
      (answer : Answer) (s : TelemetryStore P)
      → is_empty (batch s) ≡ true
      → tick answer [] (of s) ≡ (of s, 0)
  unfolding tick
  tick_empty answer s e = rw (e, tick)

  settle_final :
      (answer : Answer) (s : TelemetryStore P)
      → is_final answer ≡ true
      → settle (ids (batch s)) answer (of s) ≡ (of (ack (ids (batch s)) s), length (ids (batch s)))
  unfolding settle
  settle_final (mint_failed error) s h = cc
  settle_final (transport_failed error) s h = cc
  settle_final (status code error) s h = rw (h, settle)

  tick_final :
      (answer : Answer) (s : TelemetryStore P)
      → is_final answer ≡ true
      → is_empty (batch s) ≡ false
      → tick answer [] (of s) ≡ (of (ack (ids (batch s)) s), length (ids (batch s)))
  unfolding tick
  tick_final answer s h e = rw (e, tick) (awaited_nothing answer ∙ settle_final answer s h)
    where
      awaited_nothing :
          (a : Answer)
          → settle (ids (batch s)) answer (awaited a [] (of s))
            ≡ settle (ids (batch s)) answer (of s)
      awaited_nothing (mint_failed _) = refl
      awaited_nothing (transport_failed _) = refl
      awaited_nothing (status _ _) = refl

  length-batch :
      (s : TelemetryStore P) → IsValid s → length (ids (batch s)) ≡ min batch_size (length s.rows)
  length-batch s v =
      length-map _ (batch s)
      ∙ ap length (dequeue_batch-take batch_size s v)
      ∙ length-take batch_size s.rows

  length-ack :
      (s : TelemetryStore P)
      → IsValid s
      → length (ack (ids (batch s)) s).rows ≡ length s.rows - batch_size
  length-ack s v =
      ap (λ l. length (ack (ids l) s).rows) (dequeue_batch-take batch_size s v)
      ∙ ap length (ack-take batch_size s v.ascending)
      ∙ length-drop batch_size s.rows

  -- The loop has ended by itself, the queue is empty, and the total counts all its rows.
  abbrev pub IsDrained : ℕ → TelemetrySender P × ℕ × Bool → Type 0
  IsDrained total result = (result.2 ≡ true) × (result.1 ≡ total) × (stored result.0.store ≡ [])

  flush_step :
      (end_at total time : ℕ) (answer : Answer) (rounds : List (ℕ × Answer × List (Call P)))
      (s : TelemetryStore P)
      → IsValid s
      → 0 < batch_size
      → ltb time end_at ≡ true
      → is_final answer ≡ true
      → is_empty (batch s) ≡ false
      → flush_now end_at ((time, answer, []) ∷ rounds) total (of s)
        ≡ flush_now end_at rounds (total + length (ids (batch s))) (of (ack (ids (batch s)) s))
  unfolding flush_now
  flush_step end_at total time answer rounds s v positive early final some_rows =
      rw
        (
          early,
          tick_final answer s final some_rows,
          nat_eq_zero (length (ids (batch s))) some,
          flush_now,
        )
        refl
    where
      some : 0 < length (ids (batch s))
      some = omega (arith, length-map (λ r. r.id) (batch s), is_empty-length (batch s) some_rows)

  flush_stop :
      (end_at total time : ℕ) (answer : Answer) (rounds : List (ℕ × Answer × List (Call P)))
      (s : TelemetryStore P)
      → ltb time end_at ≡ true
      → is_empty (batch s) ≡ true
      → flush_now end_at ((time, answer, []) ∷ rounds) total (of s) ≡ (of s, total, true)
  unfolding flush_now
  flush_stop end_at total time answer rounds s early no_rows =
      rw (early, tick_empty answer s no_rows, flush_now) refl

  no_rows_left :
      (s : TelemetryStore P) → IsValid s → 0 < batch_size → is_empty (batch s) ≡ true → s.rows ≡ []
  no_rows_left s v positive e =
      length-zero s.rows (
        omega (arith, length-batch s v, length-map (λ r. r.id) (batch s), empty_length (batch s) e))

  -- What one more round leaves of the bound on the rows.
  enough_left :
      (s : TelemetryStore P) (k : ℕ)
      → IsValid s
      → is_empty (batch s) ≡ false
      → length s.rows + batch_size ≤ suc k * batch_size
      → length (ack (ids (batch s)) s).rows + batch_size ≤ k * batch_size
  enough_left s k v some_rows enough =
      omega (arith, length-ack s v, suc-times k batch_size, factor-least k batch_size left)
    where
      left : 0 < k * batch_size
      left = omega (
        arith,
        length-batch s v,
        length-map (λ r. r.id) (batch s),
        is_empty-length (batch s) some_rows,
        suc-times k batch_size,
      )

  all_counted :
      (s : TelemetryStore P) (total : ℕ)
      → IsValid s
      → total + length (ids (batch s)) + length (ack (ids (batch s)) s).rows ≡ total + length s.rows
  all_counted s total v = omega (arith, length-ack s v, length-batch s v)

  -- With a batch size above 0, answers that settle every batch, nobody else at work and a deadline
  -- that comes after enough rounds (as many as batches hold the rows, and one more), the loop ends by
  -- itself, all rows are settled, the count returned is their number, and the queue is empty.
  pub flush_now-drains :
      (end_at total : ℕ) (rounds : List (ℕ × Answer)) (s : TelemetryStore P)
      → IsValid s
      → 0 < batch_size
      → All (IsPrompt end_at) rounds
      → length s.rows + batch_size ≤ length rounds * batch_size
      → IsDrained (total + length s.rows) (flush_now end_at (quiet rounds) total (of s))
  flush_now-drains end_at total [] s v positive prompt enough = absurd (omega arith)
  flush_now-drains end_at total ((time, answer) ∷ rounds) s v positive prompt enough =
      elim (Bool-cases (is_empty (batch s))) [
        | inl none_left ↦
            let gone = no_rows_left s v positive none_left in
            rw (flush_stop end_at total time answer (quiet rounds) s prompt.0.0 none_left, gone)
              (refl, omega arith, refl)
        | inr some_rows ↦
            rw
              (
                flush_step end_at total time answer (quiet rounds) s v positive prompt.0.0
                    prompt.0.1 some_rows,
                sym (all_counted s total v),
              )
              (flush_now-drains end_at (total + length (ids (batch s))) rounds
                (ack (ids (batch s)) s) (ack-IsValid (ids (batch s)) v) positive prompt.1
                (enough_left s (length rounds) v some_rows enough))
      ]
