-- ===== src/Telemetry/Sender/Failing/Agrees.antt =====
-- Where nothing raises, the ticks of src/edge/telemetry/sender.py with exceptions are those without.
use Prim.Native.Nat.{ℕ, ◌+◌}
use mathlib.Core.Path.{◌≡◌, refl, ap, ◌∙◌}
use mathlib.Core.Logic.{inl, inr}
use mathlib.Core.Bool.{true, ◌||◌}
use mathlib.Core.Option.{some}
use mathlib.Core.List.{List, [], ◌∷◌, map}
use trustmodel_edge.Prelude.Tests.{ltb, nat_eq, if◌then◌else◌, Bool-cases}
use trustmodel_edge.Prelude.Lists.{is_empty}
use trustmodel_edge.Telemetry.Store.{Call, any_dequeue_batch, any_ack, any_mark_retry}
use trustmodel_edge.Telemetry.Sender.{
  Answer, mint_failed, transport_failed, status, TelemetrySender, is_success, is_bad_payload,
  bump_backoff, retry_later, settle, awaited, tick, run_round, run_forever, flush_now,
}
use trustmodel_edge.Telemetry.Contract.{any_queue}
use trustmodel_edge.Telemetry.Sender.Failing.{
  caught, drained, Meeting, nothing_fails, post, sent_of, tick_raising, run_round_catching,
  run_forever_catching, flush_now_raising,
}

module _ {P : Type 0} where
  -- A tick in which nothing raises.
  abbrev pub calm : Answer × List (Call P) → Meeting P
  calm (answer, meanwhile) = (nothing_fails, answer, meanwhile)

  post-settle :
      (ns : List ℕ) (answer : Answer) (meanwhile : List (Call P)) (t : TelemetrySender P)
      → post any_queue nothing_fails ns answer meanwhile t ≡ (
        (settle ns answer (awaited answer meanwhile t)).0,
        some (settle ns answer (awaited answer meanwhile t)).1,
      )
  unfolding settle retry_later bump_backoff any_ack any_mark_retry
  post-settle ns (mint_failed error) meanwhile t = refl
  post-settle ns (transport_failed error) meanwhile t = refl
  post-settle ns (status code error) meanwhile t =
      elim (Bool-cases (is_success code || is_bad_payload code)) [
        | inl e ↦ rw (e, settle) refl
        | inr e ↦ rw (e, settle) refl
      ]

  tick_raising-tick :
      (answer : Answer) (meanwhile : List (Call P)) (t : TelemetrySender P)
      → tick_raising any_queue (calm (answer, meanwhile)) t
        ≡ ((tick answer meanwhile t).0, some (tick answer meanwhile t).1)
  unfolding tick_raising tick
  tick_raising-tick answer meanwhile t =
      elim (Bool-cases (is_empty (any_dequeue_batch t.batch_size t.store))) [
        | inl e ↦ rw (e, tick) refl
        | inr e ↦ rw (e, tick) (post-settle _ answer meanwhile t)
      ]

  run_round_catching-run_round :
      (answer : Answer) (meanwhile : List (Call P)) (t : TelemetrySender P)
      → run_round_catching any_queue (calm (answer, meanwhile)) t ≡ run_round answer meanwhile t
  unfolding run_round_catching run_round
  run_round_catching-run_round answer meanwhile t =
      ap (caught any_queue) (tick_raising-tick answer meanwhile t)
      ∙ elim (Bool-cases (ltb 0 (tick answer meanwhile t).1)) [
        | inl e ↦ rw e refl
        | inr e ↦ rw e refl
      ]

  -- Over any store and any rounds in which nothing raises, the loop with exceptions leaves the sender
  -- that the loop without leaves, and sleeps as long in each round.
  pub run_forever_catching-run_forever :
      (rounds : List (Answer × List (Call P))) (t : TelemetrySender P)
      → run_forever_catching any_queue (map calm rounds) t ≡ run_forever rounds t
  unfolding run_forever_catching run_forever
  run_forever_catching-run_forever [] t = refl
  run_forever_catching-run_forever ((answer, meanwhile) ∷ rounds) t =
      rw
        (
          run_round_catching-run_round answer meanwhile t,
          run_forever_catching-run_forever rounds (run_round answer meanwhile t).0,
        )
        refl

  abbrev calm_at : ℕ × Answer × List (Call P) → ℕ × Meeting P
  calm_at (time, answer, meanwhile) = (time, calm (answer, meanwhile))

  -- The same of the drain at the end: the sender, the total, and whether the loop ended by itself.
  pub flush_now_raising-flush_now :
      (end_at : ℕ) (rounds : List (ℕ × Answer × List (Call P))) (total : ℕ) (t : TelemetrySender P)
      → flush_now_raising any_queue end_at (map calm_at rounds) total t ≡ (
        (flush_now end_at rounds total t).0,
        some (flush_now end_at rounds total t).1,
        (flush_now end_at rounds total t).2,
      )
  unfolding flush_now_raising flush_now
  flush_now_raising-flush_now end_at [] total t = refl
  flush_now_raising-flush_now end_at ((time, answer, meanwhile) ∷ rounds) total t =
      let rest =
        flush_now_raising-flush_now end_at rounds (total + (tick answer meanwhile t).1)
          (tick answer meanwhile t).0 in
      ap
        (λ r.
          if ltb time end_at
          then drained any_queue total r
              (flush_now_raising any_queue end_at (map calm_at rounds) (total + sent_of r.1) r.0)
          else (t, some total, true))
        (tick_raising-tick answer meanwhile t)
      ∙ elim (Bool-cases (ltb time end_at)) [
        | inl e ↦ elim (Bool-cases (nat_eq (tick answer meanwhile t).1 0)) [
          | inl f ↦ rw (e, f) refl
          | inr f ↦ rw (e, f) rest
        ]
        | inr e ↦ rw e refl
      ]
