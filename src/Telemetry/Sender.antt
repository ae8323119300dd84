-- ===== src/Telemetry/Sender.antt =====
-- src/edge/telemetry/sender.py. Times are milliseconds. A tick waits once, for the answer of the
-- gateway; `meanwhile` is what other tasks call on the store while it waits. No call raises
-- here; Failing has the same code with exceptions.
pub mod Ticks
pub mod Kept
pub mod Bounds
pub mod Delivered
pub mod Drain
pub mod Failing
use Prim.Native.Nat.{ℕ, ◌+◌, ◌*◌, min}
use Prim.Native.String
use Prim.Native.String.{String}
use mathlib.Core.Bool.{Bool, true, false, ◌&&◌, ◌||◌}
use mathlib.Core.List.{List, [], ◌∷◌}
use trustmodel_edge.Prelude.Tests.{leb, ltb, nat_eq, if◌then◌else◌}
use trustmodel_edge.Prelude.Lists.{length, is_empty}
use trustmodel_edge.Prelude.Text.{decimal_text, take_chars}
use trustmodel_edge.Telemetry.Store.{
  TelemetryStore, AnyTelemetryStore, durable, noop, ids, any_dequeue_batch, any_ack, any_mark_retry,
  Call, perform_all,
}

-- `_MAX_BACKOFF_SECONDS`
abbrev pub max_backoff : ℕ
max_backoff = 60000

-- How minting the token and posting the batch end: the text of the exception, or the status and the text
-- of the response.
pub data Answer : Type 0 where
  mint_failed : String → Answer
  transport_failed : String → Answer
  status : ℕ → String → Answer

-- The fields of a `TelemetrySender` on a store of type `S`.
pub record Worker (S : Type 0) : Type 0 where
  pub store : S
  pub batch_size : ℕ
  pub flush_interval : ℕ
  pub backoff : ℕ

abbrev pub TelemetrySender : Type 0 → Type 0
TelemetrySender P = Worker (AnyTelemetryStore P)

-- `response.is_success`
abbrev pub is_success : ℕ → Bool
is_success code = leb 200 code && ltb code 300

-- The statuses for which the rows are acknowledged though the gateway refused them.
abbrev pub is_bad_payload : ℕ → Bool
is_bad_payload code = nat_eq code 400 || nat_eq code 422

-- `f"{response.status_code}: {response.text[:200]}"`
unfoldable pub status_error : ℕ → String → String
unfolding decimal_text take_chars
status_error code text = String.◌++◌ (decimal_text code) (String.◌++◌ ": " (take_chars 200 text))

module _ {P : Type 0} where
  abbrev pub any_perform_all : List (Call P) → AnyTelemetryStore P → AnyTelemetryStore P
  any_perform_all cs (durable s) = durable (perform_all cs s)
  any_perform_all cs (noop dropped) = noop dropped

  pub bump_backoff : TelemetrySender P → TelemetrySender P
  bump_backoff t = record t { backoff = min (t.backoff * 2) max_backoff }

  pub retry_later : List ℕ → String → TelemetrySender P → TelemetrySender P
  unfolding bump_backoff any_mark_retry
  retry_later ns error t = bump_backoff (record t { store = any_mark_retry ns error t.store })

  -- What follows the answer; the second part is the number of rows sent.
  pub settle : List ℕ → Answer → TelemetrySender P → TelemetrySender P × ℕ
  unfolding retry_later any_ack status_error
  settle ns (mint_failed error) t = (retry_later ns (String.◌++◌ "jwt_mint: " error) t, 0)
  settle ns (transport_failed error) t = (retry_later ns (String.◌++◌ "transport: " error) t, 0)
  settle ns (status code text) t =
      if is_success code || is_bad_payload code
      then (record t { store = any_ack ns t.store }, length ns)
      else (retry_later ns (status_error code text) t, 0)

  -- With no token there is no request, so nothing runs in between.
  abbrev pub awaited : Answer → List (Call P) → TelemetrySender P → TelemetrySender P
  awaited (mint_failed _) meanwhile t = t
  awaited (transport_failed _) meanwhile t = record t { store = any_perform_all meanwhile t.store }
  awaited (status _ _) meanwhile t = record t { store = any_perform_all meanwhile t.store }

  -- `_tick`
  pub tick : Answer → List (Call P) → TelemetrySender P → TelemetrySender P × ℕ
  unfolding any_dequeue_batch settle
  tick answer meanwhile t =
      let batch = any_dequeue_batch t.batch_size t.store in
      if is_empty batch then (t, 0) else settle (ids batch) answer (awaited answer meanwhile t)

  -- One round of `run_forever`, and for how long it sleeps.
  pub run_round : Answer → List (Call P) → TelemetrySender P → TelemetrySender P × ℕ
  unfolding tick
  run_round answer meanwhile t =
      let (t', sent) = tick answer meanwhile t in
      if ltb 0 sent then (record t' { backoff = t'.flush_interval }, 0) else (t', t'.backoff)

  -- The rounds of `run_forever` until it is cancelled, and for how long each of them sleeps.
  unfoldable pub run_forever :
      List (Answer × List (Call P)) → TelemetrySender P → TelemetrySender P × List ℕ
  unfolding run_round
  run_forever [] t = (t, [])
  run_forever ((answer, meanwhile) ∷ rounds) t =
      let (t', nap) = run_round answer meanwhile t in
      let (last, naps) = run_forever rounds t' in (last, nap ∷ naps)

  -- `flush_now`: the clock at each test of the loop with what its tick meets. The total, and whether
  -- the loop ended by itself.
  unfoldable pub flush_now :
      ℕ → List (ℕ × Answer × List (Call P)) → ℕ → TelemetrySender P → TelemetrySender P × ℕ × Bool
  unfolding tick
  flush_now end_at [] total t = (t, total, false)
  flush_now end_at ((time, answer, meanwhile) ∷ rounds) total t =
      let (t', sent) = tick answer meanwhile t in
      let rest = flush_now end_at rounds (total + sent) t' in
      if ltb time end_at
      then (if nat_eq sent 0 then (t', total, true) else rest)
      else (t, total, true)
