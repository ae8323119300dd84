-- ===== src/Telemetry/Sender/Failing/Turns.antt =====
-- What one tick of src/edge/telemetry/sender.py does to the events, whatever raises in it, over any store
-- that keeps the contract of a queue.
use Prim.Native.Nat.{ℕ}
use Prim.Native.String.{String}
use mathlib.Core.Path.{◌≡◌, refl, sym, ap, ◌∙◌, subst}
use mathlib.Core.Logic.{inl, inr}
use mathlib.Core.Bool.{◌||◌}
use mathlib.Core.Option.{Option, none, some}
use mathlib.Core.List.{List, [], ◌++◌, append-nil, append_assoc, Sublist}
use mathlib.Core.List.Sublist
use trustmodel_edge.Prelude.Tests.{if◌then◌else◌, Bool-cases}
use trustmodel_edge.Prelude.Lists.{
  All, length, take, is_empty, take_again, take-append-drop, length-map,
}
use trustmodel_edge.Telemetry.Store.{Call, QueuedEvent, ids, payloads}
use trustmodel_edge.Telemetry.Store.Interleaved.{NoAck}
use trustmodel_edge.Telemetry.Sender.{
  Worker, Answer, mint_failed, transport_failed, status, status_error, is_success, is_bad_payload,
}
use trustmodel_edge.Telemetry.Contract.{EventQueue, IsLawful}
use trustmodel_edge.Telemetry.Sender.Failing.{
  Trouble, nothing_fails, reads_fail, posts_fail, writes_fail, hear, acknowledge, postpone, post,
  tick_raising,
}
use trustmodel_edge.Telemetry.Sender.Failing.Results.{
  heard_by, answered_by, Turned, none_sent, postpone-Turned,
}

module _ {S P : Type 0} (q : EventQueue S P) (IsSound : S → Type 0)
    (lawful : IsLawful q IsSound) where
  module _ (w : Worker S) (sound : IsSound w.store) (meanwhile : List (Call P))
      (quiet : All NoAck meanwhile) where
    abbrev batch : List (QueuedEvent P)
    batch = q.dequeue_batch w.batch_size w.store

    hear-waiting :
        q.waiting (hear q meanwhile w).store ≡ q.waiting w.store ++ q.added meanwhile w.store
    hear-waiting = lawful.others_add meanwhile w.store sound quiet

    hear-IsSound : IsSound (hear q meanwhile w).store
    hear-IsSound = lawful.others_sound meanwhile w.store sound

    unchanged : q.waiting w.store ≡ q.waiting w.store ++ []
    unchanged = sym (append-nil (q.waiting w.store))

    -- As many events as the batch has are the batch.
    take-batch : take (length (ids batch)) (q.waiting w.store) ≡ payloads batch
    take-batch =
        ap (λ n. take n (q.waiting w.store))
          (length-map (λ r. r.id) batch ∙ sym (length-map (λ r. r.payload) batch))
        ∙ ap (λ xs. take (length xs) (q.waiting w.store))
            (lawful.batch_oldest w.batch_size w.store sound)
        ∙ take_again w.batch_size (q.waiting w.store)
        ∙ sym (lawful.batch_oldest w.batch_size w.store sound)

    acked-Turned :
        Turned q IsSound lawful w
          (payloads batch)
          (q.added meanwhile w.store)
          (acknowledge q nothing_fails (ids batch) (hear q meanwhile w))
    acked-Turned = record {
      balanced =
          ap (λ xs. xs ++ q.waiting (q.ack (ids batch) (q.perform_all meanwhile w.store)))
            (take-batch ∙ lawful.batch_oldest w.batch_size w.store sound)
          ∙ ap (λ xs. take w.batch_size (q.waiting w.store) ++ xs)
              (lawful.ack_removes w.batch_size meanwhile w.store sound quiet)
          ∙ sym (append_assoc (take w.batch_size (q.waiting w.store)) _ _)
          ∙ ap (λ xs. xs ++ q.added meanwhile w.store)
              (take-append-drop w.batch_size (q.waiting w.store));
      out_of = subst (λ xs. Sublist xs (payloads batch)) (sym take-batch) (Sublist.refl _);
      sound = lawful.ack_sound (ids batch) _ hear-IsSound;
    }

    acknowledge-Turned :
        (trouble : Trouble)
        → Turned q IsSound lawful w
            (payloads batch)
            (q.added meanwhile w.store)
            (acknowledge q trouble (ids batch) (hear q meanwhile w))
    acknowledge-Turned nothing_fails = acked-Turned
    acknowledge-Turned reads_fail = acked-Turned
    acknowledge-Turned posts_fail = acked-Turned
    acknowledge-Turned writes_fail = none_sent q IsSound lawful none refl hear-waiting hear-IsSound

    -- A batch that is not posted, or for which there is no answer.
    abbrev Waited : List P → List P → Worker S × Option ℕ → Type 0
    Waited answered new r =
        Turned q IsSound lawful w answered (if is_empty batch then [] else new)
          (if is_empty batch then (w, some 0) else r)

    waited :
        (answered new : List P) (r : Worker S × Option ℕ)
        → Turned q IsSound lawful w answered new r
        → Waited answered new r
    waited answered new r turned = elim (Bool-cases (is_empty batch)) [
      | inl e ↦ rw e (none_sent q IsSound lawful (some 0) refl unchanged sound)
      | inr e ↦ rw e turned
    ]

    unposted :
        (answered : List P) (r : Worker S × Option ℕ)
        → Turned q IsSound lawful w answered [] r
        → Turned q IsSound lawful w answered [] (if is_empty batch then (w, some 0) else r)
    unposted answered r turned = elim (Bool-cases (is_empty batch)) [
      | inl e ↦ rw e (none_sent q IsSound lawful (some 0) refl unchanged sound)
      | inr e ↦ rw e turned
    ]

    status-Turned :
        (trouble : Trouble) (code : ℕ) (error : String)
        → Waited
            (if is_success code || is_bad_payload code then payloads batch else [])
            (q.added meanwhile w.store)
            (if is_success code || is_bad_payload code
              then acknowledge q trouble (ids batch) (hear q meanwhile w)
              else postpone q trouble (ids batch) error (hear q meanwhile w))
    status-Turned trouble code error =
        waited _ _ _ elim (Bool-cases (is_success code || is_bad_payload code)) [
          | inl e ↦ rw e (acknowledge-Turned trouble)
          | inr e ↦ rw e (
              postpone-Turned q IsSound lawful trouble (ids batch) error (hear q meanwhile w)
                hear-waiting hear-IsSound)
        ]

    mint-Turned :
        (trouble : Trouble) (error : String)
        → Turned q IsSound lawful w [] [] (
            if is_empty batch
            then (w, some 0)
            else post q trouble (ids batch) (mint_failed error) meanwhile w)
    mint-Turned trouble error =
        unposted [] _ (postpone-Turned q IsSound lawful trouble (ids batch) _ w unchanged sound)

    transport-Turned :
        (trouble : Trouble) (error : String)
        → Waited []
            (q.added meanwhile w.store)
            (postpone q trouble (ids batch) error (hear q meanwhile w))
    transport-Turned trouble error = waited [] _ _ (
        postpone-Turned q IsSound lawful trouble (ids batch) error (hear q meanwhile w) hear-waiting
          hear-IsSound)

    unanswered : Waited [] (q.added meanwhile w.store) (hear q meanwhile w, none)
    unanswered = waited [] _ _ (none_sent q IsSound lawful none refl hear-waiting hear-IsSound)

    pub tick-Turned :
        (trouble : Trouble) (answer : Answer)
        → Turned q IsSound lawful w
            (answered_by q (trouble, answer, meanwhile) w)
            (heard_by q (trouble, answer, meanwhile) w)
            (tick_raising q (trouble, answer, meanwhile) w)
    unfolding tick_raising
    tick-Turned reads_fail answer = none_sent q IsSound lawful none refl unchanged sound
    tick-Turned posts_fail (mint_failed error) = mint-Turned posts_fail error
    tick-Turned posts_fail (transport_failed error) = unanswered
    tick-Turned posts_fail (status code error) = unanswered
    tick-Turned nothing_fails (mint_failed error) = mint-Turned nothing_fails error
    tick-Turned nothing_fails (transport_failed error) = transport-Turned nothing_fails _
    tick-Turned nothing_fails (status code error) =
        status-Turned nothing_fails code (status_error code error)
    tick-Turned writes_fail (mint_failed error) = mint-Turned writes_fail error
    tick-Turned writes_fail (transport_failed error) = transport-Turned writes_fail error
    tick-Turned writes_fail (status code error) =
        status-Turned writes_fail code (status_error code error)
