-- ===== src/Telemetry/Store/Fifo.antt =====
-- What a sender takes and acknowledges, with other calls in between (src/edge/telemetry/store.py).
use Prim.Native.Nat.{ℕ, ◌<◌}
use mathlib.Core.Path.{◌≡◌, refl, sym, ap, ◌∙◌, subst}
use mathlib.Core.Bool.{Bool, true, false, not}
use mathlib.Core.List.{List, [], ◌∷◌, ◌++◌, map-append, Memᴰ}
use mathlib.Core.List.Memᴰ
use native.Mathlib.Omega.{arith}
use trustmodel_edge.Prelude.Tests.{leb}
use trustmodel_edge.Prelude.Lists.{All, All-Memᴰ, All-of_Memᴰ, take, drop, filter, take-append-drop}
use trustmodel_edge.Prelude.Sort.{IsSorted, sort_by_of_IsSorted}
use trustmodel_edge.Telemetry.Store.{QueuedEvent, TelemetryStore, contains, ids, dequeue_batch, ack}
use trustmodel_edge.Telemetry.Store.Queue.{Ascending, IsValid}

contains_of_lt : (m : ℕ) (ns : List ℕ) → All (λ n. n < m) ns → contains m ns ≡ false
unfolding contains
contains_of_lt m [] _ = refl
contains_of_lt m (n ∷ ns) (h, hs) = ground (arith, contains_of_lt m ns hs)

contains_of_mem : (m : ℕ) (ns : List ℕ) → Memᴰ m ns → contains m ns ≡ true
unfolding contains
contains_of_mem m [] h = elim h [ ]
contains_of_mem m (n ∷ ns) (Memᴰ.head e) = ground arith
contains_of_mem m (n ∷ ns) (Memᴰ.tail h) = ground (arith, contains_of_mem m ns h)

Ascending-append_lt :
    (ns ms : List ℕ) → Ascending (ns ++ ms) → (m : ℕ) → Memᴰ m ms → All (λ n. n < m) ns
Ascending-append_lt [] ms _ m h = tt
Ascending-append_lt (n ∷ ns) ms (lt, a) m h =
    (All-Memᴰ (λ k. n < k) (Memᴰ.append_right ns h) lt, Ascending-append_lt ns ms a m h)

module _ {P : Type 0} where
  filter-All :
      (p : QueuedEvent P → Bool) (rows : List (QueuedEvent P))
      → All (λ r. p r ≡ true) rows
      → filter p rows ≡ rows
  filter-All p [] _ = refl
  filter-All p (r ∷ rows) (h, hs) = rw h (ap (◌∷◌ r) (filter-All p rows hs))

  filter_none :
      (p : QueuedEvent P → Bool) (front back : List (QueuedEvent P))
      → All (λ r. p r ≡ false) front
      → filter p (front ++ back) ≡ filter p back
  filter_none p [] back _ = refl
  filter_none p (r ∷ front) back (h, hs) = rw h (filter_none p front back hs)

  -- The test of `ack`.
  abbrev kept : List ℕ → QueuedEvent P → Bool
  kept ns r = not (contains r.id ns)

  ack-rows : (ns : List ℕ) (s : TelemetryStore P) → (ack ns s).rows ≡ filter (kept ns) s.rows
  unfolding ack
  ack-rows [] s =
      sym (filter-All (kept []) s.rows (All-of_Memᴰ _ s.rows (λ r _. unfold contains in refl)))
  ack-rows (n ∷ ns) s = refl

  drop_front :
      (front back : List (QueuedEvent P))
      → Ascending (ids (front ++ back))
      → filter (kept (ids front)) (front ++ back) ≡ back
  drop_front front back a =
      filter_none (kept (ids front)) front back (
        All-of_Memᴰ _ front
          (λ r m. ap not (contains_of_mem r.id (ids front) (Memᴰ.map (λ q. q.id) m))))
      ∙ filter-All (kept (ids front)) back (
          All-of_Memᴰ _ back (λ r m. ap not (
            contains_of_lt r.id (ids front) (
              Ascending-append_lt (ids front) (ids back)
                (subst Ascending (map-append (λ q. q.id) front back) a) r.id
                (Memᴰ.map (λ q. q.id) m)))))

  -- Acknowledging the first rows of a valid table leaves the rest.
  pub ack-take :
      (n : ℕ) (s : TelemetryStore P)
      → Ascending (ids s.rows)
      → (ack (ids (take n s.rows)) s).rows ≡ drop n s.rows
  ack-take n s a =
      ack-rows (ids (take n s.rows)) s
      ∙ ap (filter (kept (ids (take n s.rows)))) (sym (take-append-drop n s.rows))
      ∙ drop_front (take n s.rows) (drop n s.rows)
          (subst (λ l. Ascending (ids l)) (sym (take-append-drop n s.rows)) a)

  Ascending-IsSorted :
      (rows : List (QueuedEvent P)) → Ascending (ids rows) → IsSorted (λ r q. leb r.id q.id) rows
  Ascending-IsSorted [] _ = tt
  Ascending-IsSorted (r ∷ rows) (h, a) = (leb_all rows h, Ascending-IsSorted rows a)
    where
      leb_all :
          (qs : List (QueuedEvent P))
          → All (λ m. r.id < m) (ids qs)
          → All (λ q. leb r.id q.id ≡ true) qs
      leb_all [] _ = tt
      leb_all (q ∷ qs) (lt, lts) = (ground arith, leb_all qs lts)

  pub dequeue_batch-take :
      (limit : ℕ) (s : TelemetryStore P) → IsValid s → dequeue_batch limit s ≡ take limit s.rows
  unfolding dequeue_batch
  dequeue_batch-take limit s v =
      ap (take limit) (sort_by_of_IsSorted _ s.rows (Ascending-IsSorted s.rows v.ascending))
