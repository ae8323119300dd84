-- ===== src/Telemetry/Store.antt =====
-- src/edge/telemetry/store.py: the queue in the table `events`, over any type of payload (the JSON
-- text of a payload reads back as the payload). `lock` and the connection of each call make a call
-- one step.
pub mod Queue
pub mod Fifo
pub mod Interleaved
pub mod Holding
use Prim.Native.Nat.{ℕ, ◌+◌}
use Prim.Native.String.{String}
use mathlib.Core.Bool.{Bool, true, false, not, ◌||◌}
use mathlib.Core.Option.{Option, none, some}
use mathlib.Core.List.{List, [], ◌∷◌, ◌++◌, map}
use trustmodel_edge.Prelude.Tests.{leb, nat_eq, if◌then◌else◌}
use trustmodel_edge.Prelude.Lists.{length, take, filter}
use trustmodel_edge.Prelude.Sort.{sort_by}
use trustmodel_edge.Prelude.Text.{take_chars}

-- A row of `events`, and a `QueuedEvent`, which has the same columns.
pub record QueuedEvent (P : Type 0) : Type 0 where
  pub id : ℕ
  pub occurred_at : ℕ
  pub payload : P
  pub retries : ℕ
  pub last_error : String

-- `next_id` is SQLite's AUTOINCREMENT sequence: an id is never used again.
pub record TelemetryStore (P : Type 0) : Type 0 where
  pub rows : List (QueuedEvent P)
  pub next_id : ℕ
  pub max_size : ℕ
  pub dropped : ℕ

unfoldable pub contains : ℕ → List ℕ → Bool
contains n [] = false
contains n (m ∷ ms) = nat_eq m n || contains n ms

module _ {P : Type 0} where
  -- A store with no rows.
  abbrev pub fresh : ℕ → TelemetryStore P
  fresh max_size = record { rows = []; next_id = 1; max_size = max_size; dropped = 0 }

  pub count : TelemetryStore P → ℕ
  count s = length s.rows

  abbrev pub ids : List (QueuedEvent P) → List ℕ
  ids = map (λ r. r.id)

  abbrev pub payloads : List (QueuedEvent P) → List P
  payloads = map (λ r. r.payload)

  -- `fails`: SQLite raises, and the table stays as it is. `some b` is the returned Boolean, `none` the
  -- exception.
  unfoldable pub enqueue : Bool → ℕ → P → TelemetryStore P → TelemetryStore P × Option Bool
  unfolding count
  enqueue fails now payload s =
      if fails
      then (s, none)
      else if leb s.max_size (count s)
      then (record s { dropped = s.dropped + 1 }, some false)
      else (
        record s {
          rows =
              s.rows
              ++ record {
                id = s.next_id;
                occurred_at = now;
                payload = payload;
                retries = 0;
                last_error = "";
              }
                ∷ [];
          next_id = s.next_id + 1;
        },
        some true,
      )

  -- SELECT … ORDER BY id LIMIT
  unfoldable pub dequeue_batch : ℕ → TelemetryStore P → List (QueuedEvent P)
  unfolding sort_by
  dequeue_batch limit s = take limit (sort_by (λ r q. leb r.id q.id) s.rows)

  -- DELETE … WHERE id IN
  pub ack : List ℕ → TelemetryStore P → TelemetryStore P
  unfolding contains
  ack [] s = s
  ack (n ∷ ns) s = record s { rows = filter (λ r. not (contains r.id (n ∷ ns))) s.rows }

  abbrev pub retried : List ℕ → String → QueuedEvent P → QueuedEvent P
  retried ns error r =
      if contains r.id ns
      then record r { retries = r.retries + 1; last_error = take_chars 500 error }
      else r

  -- UPDATE … WHERE id IN
  unfoldable pub mark_retry : List ℕ → String → TelemetryStore P → TelemetryStore P
  unfolding contains take_chars
  mark_retry [] error s = s
  mark_retry (n ∷ ns) error s = record s { rows = map (retried (n ∷ ns) error) s.rows }

-- A call of the store, as `decide` and the sender make them.
pub data Call (P : Type 0) : Type 0 where
  enqueued : Bool → ℕ → P → Call P
  acked : List ℕ → Call P
  retry_marked : List ℕ → String → Call P

module _ {P : Type 0} where
  abbrev pub perform : Call P → TelemetryStore P → TelemetryStore P
  perform (enqueued fails now p) s = (enqueue fails now p s).0
  perform (acked ns) s = ack ns s
  perform (retry_marked ns error) s = mark_retry ns error s

  abbrev pub perform_all : List (Call P) → TelemetryStore P → TelemetryStore P
  perform_all [] s = s
  perform_all (c ∷ cs) s = perform_all cs (perform c s)

-- `TelemetryStore | NoopTelemetryStore`; the second only counts what it drops.
pub data AnyTelemetryStore (P : Type 0) : Type 0 where
  durable : TelemetryStore P → AnyTelemetryStore P
  noop : ℕ → AnyTelemetryStore P

module _ {P : Type 0} where
  unfoldable pub any_enqueue :
      Bool → ℕ → P → AnyTelemetryStore P → AnyTelemetryStore P × Option Bool
  unfolding enqueue
  any_enqueue fails now payload (durable s) =
      let (s', result) = enqueue fails now payload s in (durable s', result)
  any_enqueue fails now payload (noop dropped) = (noop (dropped + 1), some true)

  unfoldable pub any_dequeue_batch : ℕ → AnyTelemetryStore P → List (QueuedEvent P)
  unfolding dequeue_batch
  any_dequeue_batch limit (durable s) = dequeue_batch limit s
  any_dequeue_batch limit (noop dropped) = []

  unfoldable pub any_ack : List ℕ → AnyTelemetryStore P → AnyTelemetryStore P
  unfolding ack
  any_ack ns (durable s) = durable (ack ns s)
  any_ack ns (noop dropped) = noop dropped

  unfoldable pub any_mark_retry : List ℕ → String → AnyTelemetryStore P → AnyTelemetryStore P
  unfolding mark_retry
  any_mark_retry ns error (durable s) = durable (mark_retry ns error s)
  any_mark_retry ns error (noop dropped) = noop dropped
