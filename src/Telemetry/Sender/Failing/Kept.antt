-- ===== src/Telemetry/Sender/Failing/Kept.antt =====
-- What the ticks of src/edge/telemetry/sender.py keep of the sender, whatever raises in them.
use Prim.Native.Nat.{ℕ}
use Prim.Native.String.{String}
use mathlib.Core.Logic.{inl, inr}
use mathlib.Core.Bool.{◌||◌}
use mathlib.Core.Option.{some}
use mathlib.Core.List.{List}
use trustmodel_edge.Prelude.Tests.{ltb, if◌then◌else◌, Bool-cases}
use trustmodel_edge.Prelude.Lists.{is_empty}
use trustmodel_edge.Telemetry.Store.{Call, ids}
use trustmodel_edge.Telemetry.Sender.{
  Worker, Answer, mint_failed, transport_failed, status, is_success, is_bad_payload, status_error,
}
use trustmodel_edge.Telemetry.Sender.Kept.{
  HasValidStore, any_ack-IsValidStore, any_mark_retry-IsValidStore, any_perform_all-IsValidStore,
}
use trustmodel_edge.Telemetry.Contract.{EventQueue, any_queue}
use trustmodel_edge.Telemetry.Sender.Failing.{
  Trouble, nothing_fails, reads_fail, posts_fail, writes_fail, Meeting, sent_of, hear, acknowledge,
  postpone, post, tick_raising, run_round_catching,
}

module _ {S P : Type 0} (q : EventQueue S P) (Allowed : List (Call P) → Type 0) where
  -- A property of the sender that its elementary changes keep, where others make calls that are allowed.
  pub record IsClosed (Q : Worker S → Type 0) : Type 0 where
    pub acks : (ns : List ℕ) (w : Worker S) → Q w → Q (record w { store = q.ack ns w.store })
    pub retries :
        (ns : List ℕ) (error : String) (w : Worker S)
        → Q w
        → Q (postpone q nothing_fails ns error w).0
    pub hears : (cs : List (Call P)) (w : Worker S) → Allowed cs → Q w → Q (hear q cs w)
    pub resets : (w : Worker S) → Q w → Q (record w { backoff = w.flush_interval })

  module _ (Q : Worker S → Type 0) (closed : IsClosed Q) where
    kept-acknowledge :
        (trouble : Trouble) (ns : List ℕ) (w : Worker S) → Q w → Q (acknowledge q trouble ns w).0
    kept-acknowledge nothing_fails ns w h = closed.acks ns w h
    kept-acknowledge reads_fail ns w h = closed.acks ns w h
    kept-acknowledge posts_fail ns w h = closed.acks ns w h
    kept-acknowledge writes_fail ns w h = h

    kept-postpone :
        (trouble : Trouble) (ns : List ℕ) (error : String) (w : Worker S)
        → Q w
        → Q (postpone q trouble ns error w).0
    kept-postpone nothing_fails ns error w h = closed.retries ns error w h
    kept-postpone reads_fail ns error w h = closed.retries ns error w h
    kept-postpone posts_fail ns error w h = closed.retries ns error w h
    kept-postpone writes_fail ns error w h = h

    kept-settled :
        (trouble : Trouble) (ns : List ℕ) (code : ℕ) (error : String) (w : Worker S)
        → Q w
        → Q
            (if is_success code || is_bad_payload code
              then acknowledge q trouble ns w
              else postpone q trouble ns error w).0
    kept-settled trouble ns code error w h =
        elim (Bool-cases (is_success code || is_bad_payload code)) [
          | inl e ↦ rw e (kept-acknowledge trouble ns w h)
          | inr e ↦ rw e (kept-postpone trouble ns error w h)
        ]

    kept-post :
        (trouble : Trouble) (ns : List ℕ) (answer : Answer) (meanwhile : List (Call P))
        (w : Worker S)
        → Allowed meanwhile
        → Q w
        → Q (post q trouble ns answer meanwhile w).0
    kept-post trouble ns (mint_failed error) meanwhile w a h = kept-postpone trouble ns _ w h
    kept-post posts_fail ns (transport_failed error) meanwhile w a h = closed.hears meanwhile w a h
    kept-post posts_fail ns (status code error) meanwhile w a h = closed.hears meanwhile w a h
    kept-post nothing_fails ns (transport_failed error) meanwhile w a h =
        closed.retries ns _ (hear q meanwhile w) (closed.hears meanwhile w a h)
    kept-post reads_fail ns (transport_failed error) meanwhile w a h =
        closed.retries ns _ (hear q meanwhile w) (closed.hears meanwhile w a h)
    kept-post writes_fail ns (transport_failed error) meanwhile w a h = closed.hears meanwhile w a h
    kept-post nothing_fails ns (status code error) meanwhile w a h =
        kept-settled nothing_fails ns code (status_error code error) (hear q meanwhile w)
          (closed.hears meanwhile w a h)
    kept-post reads_fail ns (status code error) meanwhile w a h =
        kept-settled reads_fail ns code (status_error code error) (hear q meanwhile w)
          (closed.hears meanwhile w a h)
    kept-post writes_fail ns (status code error) meanwhile w a h =
        kept-settled writes_fail ns code (status_error code error) (hear q meanwhile w)
          (closed.hears meanwhile w a h)

    kept-attempted :
        (trouble : Trouble) (answer : Answer) (meanwhile : List (Call P)) (w : Worker S)
        → Allowed meanwhile
        → Q w
        → Q
            (if is_empty (q.dequeue_batch w.batch_size w.store)
              then (w, some 0)
              else post q trouble (ids (q.dequeue_batch w.batch_size w.store)) answer meanwhile w).0
    kept-attempted trouble answer meanwhile w a h =
        elim (Bool-cases (is_empty (q.dequeue_batch w.batch_size w.store))) [
          | inl e ↦ rw e h
          | inr e ↦ rw e (kept-post trouble _ answer meanwhile w a h)
        ]

    pub kept-tick_raising :
        (meeting : Meeting P) (w : Worker S)
        → Allowed meeting.2
        → Q w
        → Q (tick_raising q meeting w).0
    unfolding tick_raising
    kept-tick_raising (reads_fail, answer, meanwhile) w a h = h
    kept-tick_raising (nothing_fails, answer, meanwhile) w a h =
        kept-attempted nothing_fails answer meanwhile w a h
    kept-tick_raising (posts_fail, answer, meanwhile) w a h =
        kept-attempted posts_fail answer meanwhile w a h
    kept-tick_raising (writes_fail, answer, meanwhile) w a h =
        kept-attempted writes_fail answer meanwhile w a h

    pub kept-run_round_catching :
        (meeting : Meeting P) (w : Worker S)
        → Allowed meeting.2
        → Q w
        → Q (run_round_catching q meeting w).0
    unfolding run_round_catching
    kept-run_round_catching meeting w a h =
        elim (Bool-cases (ltb 0 (sent_of (tick_raising q meeting w).1))) [
          | inl e ↦ rw e (closed.resets _ (kept-tick_raising meeting w a h))
          | inr e ↦ rw e (kept-tick_raising meeting w a h)
        ]

-- A durable queue stays valid.
pub HasValidStore-IsClosed :
    {P : Type 0} → IsClosed (any_queue {P = P}) (λ cs. Unit {0}) HasValidStore
HasValidStore-IsClosed = record {
  acks = λ ns w v. any_ack-IsValidStore ns w.store v;
  retries = λ ns error w v. any_mark_retry-IsValidStore ns error w.store v;
  hears = λ cs w a v. any_perform_all-IsValidStore cs w.store v;
  resets = λ w v. v;
}
