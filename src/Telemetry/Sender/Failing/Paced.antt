-- ===== src/Telemetry/Sender/Failing/Paced.antt =====
-- How long src/edge/telemetry/sender.py sleeps when ticks raise.
use mathlib.Core.Path.{◌≡◌, refl}
use mathlib.Core.Logic.{inl, inr}
use mathlib.Core.Bool.{true}
use mathlib.Core.List.{List, [], ◌∷◌}
use native.Mathlib.Omega.{arith}
use trustmodel_edge.Prelude.Tests.{ltb, Bool-cases}
use trustmodel_edge.Prelude.Lists.{All}
use trustmodel_edge.Config.{Settings, is_accepted}
use trustmodel_edge.Telemetry.Sender.{Worker}
use trustmodel_edge.Telemetry.Sender.Bounds.{IsBounded, Naps, accepted_interval}
use trustmodel_edge.Telemetry.Contract.{EventQueue}
use trustmodel_edge.Telemetry.Sender.Failing.{
  Meeting, sent_of, tick_raising, run_round_catching, run_forever_catching,
}
use trustmodel_edge.Telemetry.Sender.Failing.Kept.{
  IsClosed, kept-tick_raising, kept-run_round_catching,
}

module _ {S P : Type 0} (q : EventQueue S P) where
  abbrev IsPaced : Worker S → Type 0
  IsPaced w = IsBounded w.flush_interval × IsBounded w.backoff

  IsPaced-IsClosed : IsClosed q (λ cs. Unit {0}) IsPaced
  IsPaced-IsClosed = record {
    acks = λ ns w paced. paced;
    retries = λ ns error w (interval, (low, high)). (interval, (omega arith, omega arith));
    hears = λ cs w a paced. paced;
    resets = λ w (interval, backoff). (interval, interval);
  }

  round-nap :
      (meeting : Meeting P) (w : Worker S) → IsPaced w → Naps (run_round_catching q meeting w).1
  unfolding run_round_catching
  round-nap meeting w paced = elim (Bool-cases (ltb 0 (sent_of (tick_raising q meeting w).1))) [
    | inl e ↦ rw e (inl refl)
    | inr e ↦
        rw e
          (inr (kept-tick_raising q (λ cs. Unit {0}) IsPaced IsPaced-IsClosed meeting w tt paced).1)
  ]

  run_forever-IsPaced :
      (rounds : List (Meeting P)) (w : Worker S)
      → IsPaced w
      → All Naps (run_forever_catching q rounds w).1
  unfolding run_forever_catching
  run_forever-IsPaced [] w paced = tt
  run_forever-IsPaced (meeting ∷ rounds) w paced = (
    round-nap meeting w paced,
    run_forever-IsPaced rounds (run_round_catching q meeting w).0
        (kept-run_round_catching q (λ cs. Unit {0}) IsPaced IsPaced-IsClosed meeting w tt paced),
  )

  -- The sender that the start makes from settings that were accepted sleeps, in every round, whatever the
  -- gateway answers and whatever raises in the tick, not at all or for at least half a second and at most
  -- five minutes.
  pub run_forever_catching-Naps :
      (cfg : Settings) (store : S) (rounds : List (Meeting P))
      → is_accepted cfg ≡ true
      → All Naps
          (run_forever_catching q rounds (record {
            store = store;
            batch_size = cfg.telemetry_batch_size;
            flush_interval = cfg.telemetry_flush_interval;
            backoff = cfg.telemetry_flush_interval;
          })).1
  run_forever_catching-Naps cfg store rounds h =
      let interval = accepted_interval cfg h in run_forever-IsPaced rounds _ (interval, interval)
