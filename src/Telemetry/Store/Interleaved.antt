-- ===== src/Telemetry/Store/Interleaved.antt =====
-- A batch of the sender and the calls of `decide` between its two steps (src/edge/telemetry/store.py).
use Prim.Native.Nat.{ℕ, ◌+◌}
use mathlib.Core.Path.{◌≡◌, refl, sym, ap, ◌∙◌, subst}
use mathlib.Core.Logic.{inl, inr}
use mathlib.Core.Bool.{true, false}
use mathlib.Core.List.{List, [], ◌∷◌, ◌++◌, map-append, append-nil, append_assoc}
use trustmodel_edge.Prelude.Tests.{leb, if◌then◌else◌, Bool-cases}
use trustmodel_edge.Prelude.Lists.{
  All, length, take, drop, take-prefix, drop-prefix, map-take, map-drop, length-map,
}
use trustmodel_edge.Telemetry.Store.{
  QueuedEvent, TelemetryStore, ids, payloads, enqueue, dequeue_batch, ack, mark_retry, Call,
  enqueued, acked, retry_marked, perform, perform_all,
}
use trustmodel_edge.Telemetry.Store.Queue.{
  IsValid, ids-retried, payloads-retried, perform_all-IsValid,
}
use trustmodel_edge.Telemetry.Store.Fifo.{ack-take, dequeue_batch-take}

-- The calls that others make while a batch is under way take nothing out of the table.
abbrev pub NoAck : {P : Type 0} → Call P → Type 0
NoAck (enqueued _ _ _) = Unit
NoAck (acked _) = ⊥
NoAck (retry_marked _ _) = Unit

module _ {P : Type 0} where
  -- The payloads that the calls add: those whose `enqueue` returns True.
  abbrev added : Call P → TelemetryStore P → List P
  added (enqueued fails now p) s =
      if fails then [] else if leb s.max_size (length s.rows) then [] else p ∷ []
  added (acked _) s = []
  added (retry_marked _ _) s = []

  abbrev pub all_added : List (Call P) → TelemetryStore P → List P
  all_added [] s = []
  all_added (c ∷ cs) s = added c s ++ all_added cs (perform c s)

  -- `s'` holds the rows of `s`, up to their retries, and behind them rows with the new payloads.
  record Grows (s s' : TelemetryStore P) (new : List P) : Type 0 where
    new_ids : List ℕ
    same_ids : ids s'.rows ≡ ids s.rows ++ new_ids
    same_payloads : payloads s'.rows ≡ payloads s.rows ++ new

  Grows-rows :
      (s s' : TelemetryStore P)
      → ids s'.rows ≡ ids s.rows
      → payloads s'.rows ≡ payloads s.rows
      → Grows s s' []
  Grows-rows s s' e e' = record {
    new_ids = [];
    same_ids = e ∙ sym (append-nil (ids s.rows));
    same_payloads = e' ∙ sym (append-nil (payloads s.rows));
  }

  enqueue_full :
      (now : ℕ) (p : P) (s : TelemetryStore P)
      → leb s.max_size (length s.rows) ≡ true
      → (enqueue false now p s).0 ≡ record s { dropped = s.dropped + 1 }
  unfolding enqueue
  enqueue_full now p s full = rw (full, enqueue)

  abbrev new_row : ℕ → P → TelemetryStore P → QueuedEvent P
  new_row now p s = record {
    id = s.next_id;
    occurred_at = now;
    payload = p;
    retries = 0;
    last_error = "";
  }

  enqueue_room :
      (now : ℕ) (p : P) (s : TelemetryStore P)
      → leb s.max_size (length s.rows) ≡ false
      → (enqueue false now p s).0.rows ≡ s.rows ++ new_row now p s ∷ []
  unfolding enqueue
  enqueue_room now p s room = rw (room, enqueue)

  perform-Grows : (c : Call P) (s : TelemetryStore P) → NoAck c → Grows s (perform c s) (added c s)
  unfolding enqueue
  perform-Grows (enqueued true now p) s _ = Grows-rows s s refl refl
  perform-Grows (enqueued false now p) s _ = elim (Bool-cases (leb s.max_size (length s.rows))) [
    | inl full ↦
        subst (Grows s (perform (enqueued false now p) s))
          (sym (ap (λ b. if b then [] else p ∷ []) full))
          (Grows-rows s _ (ap (λ r. ids r.rows) (enqueue_full now p s full))
            (ap (λ r. payloads r.rows) (enqueue_full now p s full)))
    | inr room ↦
        subst (Grows s (perform (enqueued false now p) s))
          (sym (ap (λ b. if b then [] else p ∷ []) room))
          (record {
            new_ids = s.next_id ∷ [];
            same_ids = ap ids (enqueue_room now p s room) ∙ map-append _ s.rows _;
            same_payloads = ap payloads (enqueue_room now p s room) ∙ map-append _ s.rows _;
          })
  ]
  perform-Grows (acked ns) s h = absurd h
  perform-Grows (retry_marked [] error) s _ = unfold mark_retry in Grows-rows s s refl refl
  perform-Grows (retry_marked (n ∷ ns) error) s _ =
      unfold mark_retry in
      Grows-rows s (mark_retry (n ∷ ns) error s) (ids-retried (n ∷ ns) error s.rows)
        (payloads-retried (n ∷ ns) error s.rows)

  perform_all-Grows :
      (cs : List (Call P)) (s : TelemetryStore P)
      → All NoAck cs
      → Grows s (perform_all cs s) (all_added cs s)
  perform_all-Grows [] s _ = Grows-rows s s refl refl
  perform_all-Grows (c ∷ cs) s (h, hs) =
      let first = perform-Grows c s h in
      let rest = perform_all-Grows cs (perform c s) hs in
      record {
        new_ids = first.new_ids ++ rest.new_ids;
        same_ids =
            rest.same_ids
            ∙ ap (λ l. l ++ rest.new_ids) first.same_ids
            ∙ append_assoc (ids s.rows) first.new_ids rest.new_ids;
        same_payloads =
            rest.same_payloads
            ∙ ap (λ l. l ++ all_added cs (perform c s)) first.same_payloads
            ∙ append_assoc (payloads s.rows) (added c s) (all_added cs (perform c s));
      }

  module _ (limit : ℕ) (s : TelemetryStore P) (cs : List (Call P)) (valid : IsValid s)
      (no_ack : All NoAck cs) where
    abbrev batch : List (QueuedEvent P)
    batch = dequeue_batch limit s

    abbrev later : TelemetryStore P
    later = perform_all cs s

    abbrev size : ℕ
    size = length (take limit s.rows)

    ids-batch : ids batch ≡ ids (take size later.rows)
    ids-batch =
        ap ids (dequeue_batch-take limit s valid)
        ∙ map-take (λ r. r.id) limit s.rows
        ∙ sym (take-prefix limit (ids s.rows) (perform_all-Grows cs s no_ack).new_ids)
        ∙ ap (λ k. take k (ids s.rows ++ (perform_all-Grows cs s no_ack).new_ids)) size-ids
        ∙ sym (ap (take size) (perform_all-Grows cs s no_ack).same_ids)
        ∙ sym (map-take (λ r. r.id) size later.rows)
      where
        size-ids : length (take limit (ids s.rows)) ≡ size
        size-ids =
            ap length (sym (map-take (λ r. r.id) limit s.rows)) ∙ length-map _ (take limit s.rows)

    -- A batch is the oldest `limit` payloads of the queue, and acknowledging it removes just these:
    -- whatever events are enqueued or marked for retry between the two steps, what is left is the rest
    -- of the queue, in order, and behind it the new events that were accepted.
    pub ack-batch :
        (payloads batch ≡ take limit (payloads s.rows))
        × (payloads (ack (ids batch) later).rows ≡ drop limit (payloads s.rows) ++ all_added cs s)
    ack-batch = (
      ap payloads (dequeue_batch-take limit s valid) ∙ map-take (λ r. r.payload) limit s.rows,
      ap (λ ns. payloads (ack ns later).rows) ids-batch
          ∙ ap payloads (ack-take size later (perform_all-IsValid cs s valid).ascending)
          ∙ map-drop (λ r. r.payload) size later.rows
          ∙ ap (drop size) (perform_all-Grows cs s no_ack).same_payloads
          ∙ ap (λ k. drop k (payloads s.rows ++ all_added cs s)) size-payloads
          ∙ drop-prefix limit (payloads s.rows) (all_added cs s),
    )
      where
        size-payloads : size ≡ length (take limit (payloads s.rows))
        size-payloads = sym (
            ap length (sym (map-take (λ r. r.payload) limit s.rows))
            ∙ length-map _ (take limit s.rows))

  pub payloads-perform_all :
      (cs : List (Call P)) (s : TelemetryStore P)
      → All NoAck cs
      → payloads (perform_all cs s).rows ≡ payloads s.rows ++ all_added cs s
  payloads-perform_all cs s no_ack = (perform_all-Grows cs s no_ack).same_payloads
