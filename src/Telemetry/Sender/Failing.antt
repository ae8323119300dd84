-- ===== src/Telemetry/Sender/Failing.antt =====
-- src/edge/telemetry/sender.py again, over any store that keeps the contract of a queue, and with the
-- exceptions that a tick does not catch: those of SQLite, and those of the request that are not
-- `httpx.HTTPError`.
pub mod Agrees
pub mod Kept
pub mod Results
pub mod Turns
pub mod Lossless
pub mod Recovers
pub mod Paced
use Prim.Native.Nat.{ℕ, ◌+◌, ◌*◌, min}
use Prim.Native.String
use Prim.Native.String.{String}
use mathlib.Core.Bool.{Bool, true, false, ◌||◌}
use mathlib.Core.List.{List, [], ◌∷◌}
use mathlib.Core.Option.{Option, none, some}
use trustmodel_edge.Prelude.Tests.{ltb, nat_eq, if◌then◌else◌}
use trustmodel_edge.Prelude.Lists.{length, is_empty}
use trustmodel_edge.Telemetry.Store.{Call, ids}
use trustmodel_edge.Telemetry.Sender.{
  Worker, Answer, mint_failed, transport_failed, status, status_error, max_backoff, is_success,
  is_bad_payload,
}
use trustmodel_edge.Telemetry.Contract.{EventQueue}

-- What raises in a tick, which ends there: `dequeue_batch`, the request, or `ack` or `mark_retry`.
pub data Trouble : Type 0 where
  nothing_fails reads_fail posts_fail writes_fail : Trouble

-- One tick meets: what raises, the answer of the gateway, and the calls of others while it waits.
abbrev pub Meeting : Type 0 → Type 0
Meeting P = Trouble × Answer × List (Call P)

-- `except Exception: … sent = 0`
abbrev pub sent_of : Option ℕ → ℕ
sent_of none = 0
sent_of (some sent) = sent

module _ {S P : Type 0} (q : EventQueue S P) where
  abbrev pub hear : List (Call P) → Worker S → Worker S
  hear cs w = record w { store = q.perform_all cs w.store }

  -- `ack` and the return; `none` is the exception.
  abbrev pub acknowledge : Trouble → List ℕ → Worker S → Worker S × Option ℕ
  acknowledge writes_fail ns w = (w, none)
  acknowledge _ ns w = (record w { store = q.ack ns w.store }, some (length ns))

  -- `mark_retry`, `_bump_backoff` and the return
  abbrev pub postpone : Trouble → List ℕ → String → Worker S → Worker S × Option ℕ
  postpone writes_fail ns error w = (w, none)
  postpone _ ns error w = (
    record w { store = q.mark_retry ns error w.store; backoff = min (w.backoff * 2) max_backoff },
    some 0,
  )

  -- The request for the rows `ns`, and what follows it. With no token there is no request.
  abbrev pub post : Trouble → List ℕ → Answer → List (Call P) → Worker S → Worker S × Option ℕ
  post trouble ns (mint_failed error) meanwhile w =
      postpone trouble ns (String.◌++◌ "jwt_mint: " error) w
  post posts_fail ns answer meanwhile w = (hear meanwhile w, none)
  post trouble ns (transport_failed error) meanwhile w =
      postpone trouble ns (String.◌++◌ "transport: " error) (hear meanwhile w)
  post trouble ns (status code text) meanwhile w =
      if is_success code || is_bad_payload code
      then acknowledge trouble ns (hear meanwhile w)
      else postpone trouble ns (status_error code text) (hear meanwhile w)

  -- `_tick`
  unfoldable pub tick_raising : Meeting P → Worker S → Worker S × Option ℕ
  tick_raising (reads_fail, answer, meanwhile) w = (w, none)
  tick_raising (trouble, answer, meanwhile) w =
      let batch = q.dequeue_batch w.batch_size w.store in
      if is_empty batch then (w, some 0) else post trouble (ids batch) answer meanwhile w

  -- What `run_forever` does with the result of a tick: an exception is logged, and the sleep is the
  -- backoff that the tick left.
  abbrev pub caught : Worker S × Option ℕ → Worker S × ℕ
  caught (w, result) =
      if ltb 0 (sent_of result)
      then (record w { backoff = w.flush_interval }, 0)
      else (w, w.backoff)

  -- One round of `run_forever`
  pub run_round_catching : Meeting P → Worker S → Worker S × ℕ
  unfolding tick_raising
  run_round_catching meeting w = caught (tick_raising meeting w)

  -- `run_forever` until it is cancelled, and for how long each round sleeps
  pub run_forever_catching : List (Meeting P) → Worker S → Worker S × List ℕ
  unfolding run_round_catching
  run_forever_catching [] w = (w, [])
  run_forever_catching (meeting ∷ rounds) w =
      let (w', nap) = run_round_catching meeting w in
      let (last, naps) = run_forever_catching rounds w' in (last, nap ∷ naps)

  -- What `flush_now` does with the result of a tick; `rest` is what the next test of the clock gives.
  abbrev pub drained :
      ℕ → Worker S × Option ℕ → Worker S × Option ℕ × Bool → Worker S × Option ℕ × Bool
  drained total (w, none) rest = (w, none, true)
  drained total (w, some sent) rest = if nat_eq sent 0 then (w, some total, true) else rest

  -- `flush_now`, which passes the exception on; the total is `none` then.
  unfoldable pub flush_now_raising :
      ℕ → List (ℕ × Meeting P) → ℕ → Worker S → Worker S × Option ℕ × Bool
  unfolding tick_raising
  flush_now_raising end_at [] total w = (w, some total, false)
  flush_now_raising end_at ((time, meeting) ∷ rounds) total w =
      let result = tick_raising meeting w in
      let rest = flush_now_raising end_at rounds (total + sent_of result.1) result.0 in
      if ltb time end_at then drained total result rest else (w, some total, true)
