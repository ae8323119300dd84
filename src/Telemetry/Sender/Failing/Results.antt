-- ===== src/Telemetry/Sender/Failing/Results.antt =====
-- The result of one tick of src/edge/telemetry/sender.py, in terms of the events: which were added, which
-- the gateway answered, and what is left.
use Prim.Native.Nat.{ℕ}
use Prim.Native.String.{String}
use mathlib.Core.Path.{◌≡◌, refl, sym, ap, ◌∙◌, subst}
use mathlib.Core.Bool.{◌||◌}
use mathlib.Core.Option.{Option, none, some}
use mathlib.Core.List.{List, [], ◌++◌, Sublist}
use mathlib.Core.List.Sublistᴰ
use trustmodel_edge.Prelude.Tests.{if◌then◌else◌}
use trustmodel_edge.Prelude.Lists.{take, is_empty}
use trustmodel_edge.Telemetry.Store.{payloads}
use trustmodel_edge.Telemetry.Sender.{
  Worker, mint_failed, transport_failed, status, is_success, is_bad_payload,
}
use trustmodel_edge.Telemetry.Contract.{EventQueue, IsLawful}
use trustmodel_edge.Telemetry.Sender.Failing.{
  Trouble, nothing_fails, reads_fail, posts_fail, writes_fail, Meeting, sent_of, postpone,
}

module _ {S P : Type 0} (q : EventQueue S P) where
  -- The events that are added while a tick waits for an answer.
  abbrev pub heard_by : Meeting P → Worker S → List P
  heard_by (reads_fail, answer, meanwhile) w = []
  heard_by (trouble, mint_failed error, meanwhile) w = []
  heard_by (trouble, answer, meanwhile) w =
      if is_empty (q.dequeue_batch w.batch_size w.store) then [] else q.added meanwhile w.store

  -- The events for which the gateway answered 2xx, 400 or 422.
  abbrev pub answered_by : Meeting P → Worker S → List P
  answered_by (reads_fail, answer, meanwhile) w = []
  answered_by (posts_fail, answer, meanwhile) w = []
  answered_by (trouble, mint_failed error, meanwhile) w = []
  answered_by (trouble, transport_failed error, meanwhile) w = []
  answered_by (trouble, status code error, meanwhile) w =
      if is_success code || is_bad_payload code
      then payloads (q.dequeue_batch w.batch_size w.store)
      else []

  module _ (IsSound : S → Type 0) (lawful : IsLawful q IsSound) where
    -- The result `r` of a tick of `w`, for which the gateway answered about `answered`, and in which
    -- `new` was added: what is reported as sent is `answered`, or nothing.
    pub record Turned (w : Worker S) (answered new : List P) (r : Worker S × Option ℕ)
        : Type 0 where
      pub balanced :
          take (sent_of r.1) (q.waiting w.store) ++ q.waiting r.0.store ≡ q.waiting w.store ++ new
      pub out_of : Sublist (take (sent_of r.1) (q.waiting w.store)) answered
      pub sound : IsSound r.0.store

    -- A tick that reports nothing as sent.
    pub none_sent :
        {w w' : Worker S} {answered new : List P} (result : Option ℕ)
        → sent_of result ≡ 0
        → q.waiting w'.store ≡ q.waiting w.store ++ new
        → IsSound w'.store
        → Turned w answered new (w', result)
    none_sent {w} {w'} {answered} result zero_sent same sound = record {
      balanced = ap (λ n. take n (q.waiting w.store) ++ q.waiting w'.store) zero_sent ∙ same;
      out_of =
          subst (λ n. Sublist (take n (q.waiting w.store)) answered) (sym zero_sent)
            ∣ Sublistᴰ.nil-sublist answered ∣₁;
      sound = sound;
    }

    postponed-Turned :
        {w : Worker S} {answered new : List P} (ns : List ℕ) (error : String) (w' : Worker S)
        → q.waiting w'.store ≡ q.waiting w.store ++ new
        → IsSound w'.store
        → Turned w answered new (postpone q nothing_fails ns error w')
    postponed-Turned ns error w' same sound =
        none_sent (some 0) refl (lawful.retry_keeps ns error w'.store ∙ same)
          (lawful.retry_sound ns error w'.store sound)

    pub postpone-Turned :
        {w : Worker S} {answered new : List P} (trouble : Trouble) (ns : List ℕ) (error : String)
        (w' : Worker S)
        → q.waiting w'.store ≡ q.waiting w.store ++ new
        → IsSound w'.store
        → Turned w answered new (postpone q trouble ns error w')
    postpone-Turned nothing_fails ns error w' same sound = postponed-Turned ns error w' same sound
    postpone-Turned reads_fail ns error w' same sound = postponed-Turned ns error w' same sound
    postpone-Turned posts_fail ns error w' same sound = postponed-Turned ns error w' same sound
    postpone-Turned writes_fail ns error w' same sound = none_sent none refl same sound
