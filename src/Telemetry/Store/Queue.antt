-- ===== src/Telemetry/Store/Queue.antt =====
-- The table of src/edge/telemetry/store.py is a bounded first-in first-out queue.
use Prim.Native.Nat.{ℕ, suc, ◌≤◌, ◌<◌}
use Prim.Native.String.{String}
use mathlib.Core.Path.{◌≡◌, refl, ap}
use mathlib.Core.Logic.{inl, inr}
use mathlib.Core.Bool.{Bool, not}
use mathlib.Core.List.{List, [], ◌∷◌, ◌++◌, map, map-append}
use native.Mathlib.Omega.{arith}
use trustmodel_edge.Prelude.Tests.{leb, Bool-cases}
use trustmodel_edge.Prelude.Lists.{
  All, All-append, All-map, length, filter, length-append, length-map,
}
use trustmodel_edge.Telemetry.Store.{
  QueuedEvent, TelemetryStore, contains, ids, payloads, enqueue, ack, retried, mark_retry, Call,
  enqueued, acked, retry_marked, perform, perform_all,
}

-- Ids ascend.
abbrev pub Ascending : List ℕ → Type 0
Ascending [] = Unit
Ascending (n ∷ ns) = All (λ m. n < m) ns × Ascending ns

module _ {P : Type 0} where
  pub record IsValid (s : TelemetryStore P) : Type 0 where
    pub ascending : Ascending (ids s.rows)
    pub below : All (λ n. n < s.next_id) (ids s.rows)
    pub bounded : length s.rows ≤ s.max_size

Ascending-concat :
    (ns : List ℕ) (n : ℕ) → Ascending ns → All (λ m. m < n) ns → Ascending (ns ++ n ∷ [])
Ascending-concat [] n _ _ = (tt, tt)
Ascending-concat (m ∷ ms) n (h, a) (lt, lts) =
    (All-append (λ k. m < k) ms (n ∷ []) h (lt, tt), Ascending-concat ms n a lts)

module _ {P : Type 0} where
  pub ids-retried :
      (ns : List ℕ) (error : String) (rows : List (QueuedEvent P))
      → ids (map (retried ns error) rows) ≡ ids rows
  ids-retried ns error [] = refl
  ids-retried ns error (r ∷ rows) = ground (arith, ids-retried ns error rows)

  pub payloads-retried :
      (ns : List ℕ) (error : String) (rows : List (QueuedEvent P))
      → payloads (map (retried ns error) rows) ≡ payloads rows
  payloads-retried ns error [] = refl
  payloads-retried ns error (r ∷ rows) = ground (arith, payloads-retried ns error rows)

  All-ids-filter :
      (Q : ℕ → Type 0) (p : QueuedEvent P → Bool) (rows : List (QueuedEvent P))
      → All Q (ids rows)
      → All Q (ids (filter p rows))
  All-ids-filter Q p [] _ = tt
  All-ids-filter Q p (r ∷ rows) (h, hs) = elim (Bool-cases (p r)) [
    | inl e ↦ rw e (h, All-ids-filter Q p rows hs)
    | inr e ↦ rw e (All-ids-filter Q p rows hs)
  ]

  Ascending-filter :
      (p : QueuedEvent P → Bool) (rows : List (QueuedEvent P))
      → Ascending (ids rows)
      → Ascending (ids (filter p rows))
  Ascending-filter p [] _ = tt
  Ascending-filter p (r ∷ rows) (h, a) = elim (Bool-cases (p r)) [
    | inl e ↦ rw e (All-ids-filter (λ m. r.id < m) p rows h, Ascending-filter p rows a)
    | inr e ↦ rw e (Ascending-filter p rows a)
  ]

  length-filter-le :
      (p : QueuedEvent P → Bool) (rows : List (QueuedEvent P))
      → length (filter p rows) ≤ length rows
  length-filter-le p [] = omega arith
  length-filter-le p (r ∷ rows) = ground (arith, length-filter-le p rows)

  length-ids : (rows : List (QueuedEvent P)) → length (ids rows) ≡ length rows
  length-ids [] = refl
  length-ids (r ∷ rows) = ap suc (length-ids rows)

module _ {P : Type 0} {s : TelemetryStore P} where
  pub enqueue-IsValid :
      (fails : Bool) (now : ℕ) (p : P) → IsValid s → IsValid (enqueue fails now p s).0
  unfolding enqueue
  enqueue-IsValid fails now p v = elim (Bool-cases fails) [
    | inl e ↦ rw e v
    | inr e ↦ rw e (elim (Bool-cases (leb s.max_size (length s.rows))) [
      | inl full ↦
          rw full (record { ascending = v.ascending; below = v.below; bounded = v.bounded })
      | inr room ↦ rw room (record {
        ascending = rw map-append (Ascending-concat (ids s.rows) s.next_id v.ascending v.below);
        below = rw map-append (
            All-append _ (ids s.rows) (s.next_id ∷ [])
              (All-map (λ n h. omega arith) (ids s.rows) v.below) (omega arith, tt));
        bounded = rw length-append (ground arith);
      })
    ])
  ]

  pub ack-IsValid : (ns : List ℕ) → IsValid s → IsValid (ack ns s)
  unfolding ack
  ack-IsValid [] v = v
  ack-IsValid (n ∷ ns) v = record {
    ascending = Ascending-filter _ s.rows v.ascending;
    below = All-ids-filter (λ n. n < s.next_id) _ s.rows v.below;
    bounded = omega (arith, length-filter-le (λ r. not (contains r.id (n ∷ ns))) s.rows, v.bounded);
  }

  pub mark_retry-IsValid :
      (ns : List ℕ) (error : String) → IsValid s → IsValid (mark_retry ns error s)
  unfolding mark_retry
  mark_retry-IsValid [] error v = v
  mark_retry-IsValid (n ∷ ns) error v = record {
    ascending = rw ids-retried v.ascending;
    below = rw ids-retried v.below;
    bounded = rw length-map v.bounded;
  }

module _ {P : Type 0} where
  pub perform-IsValid : (c : Call P) {s : TelemetryStore P} → IsValid s → IsValid (perform c s)
  perform-IsValid (enqueued fails now p) v = enqueue-IsValid fails now p v
  perform-IsValid (acked ns) v = ack-IsValid ns v
  perform-IsValid (retry_marked ns error) v = mark_retry-IsValid ns error v

  -- Whatever calls are made, in whatever order, the ids ascend, none is used twice, and the table
  -- never holds more rows than the configured maximum.
  pub perform_all-IsValid :
      (cs : List (Call P)) (s : TelemetryStore P) → IsValid s → IsValid (perform_all cs s)
  perform_all-IsValid [] s v = v
  perform_all-IsValid (c ∷ cs) s v = perform_all-IsValid cs (perform c s) (perform-IsValid c v)
