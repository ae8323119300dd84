-- ===== src/Telemetry/Sender/Bounds.antt =====
-- How long src/edge/telemetry/sender.py sleeps.
use Prim.Native.Nat.{ℕ, ◌≤◌}
use mathlib.Core.Path.{◌≡◌, refl}
use mathlib.Core.Logic.{◌⊎◌, inl, inr}
use mathlib.Core.Bool.{true}
use mathlib.Core.List.{List, [], ◌∷◌}
use native.Mathlib.Omega.{arith}
use trustmodel_edge.Prelude.Tests.{ltb, Bool-cases}
use trustmodel_edge.Prelude.Lists.{All}
use trustmodel_edge.Config.{Settings, is_accepted}
use trustmodel_edge.Telemetry.Store.{AnyTelemetryStore, Call}
use trustmodel_edge.Telemetry.Sender.{
  Answer, TelemetrySender, bump_backoff, retry_later, tick, run_round, run_forever,
}
use trustmodel_edge.Telemetry.Sender.Kept.{IsClosed, kept-tick, kept-run_round}

-- From half a second to five minutes, in milliseconds.
abbrev pub IsBounded : ℕ → Type 0
IsBounded n = (500 ≤ n) × (n ≤ 300000)

-- No sleep, or one within these bounds.
abbrev pub Naps : ℕ → Type 0
Naps nap = (nap ≡ 0) ⊎ IsBounded nap

pub accepted_interval :
    (cfg : Settings) → is_accepted cfg ≡ true → IsBounded cfg.telemetry_flush_interval
unfolding is_accepted
accepted_interval cfg h = ground arith

module _ {P : Type 0} where
  abbrev IsPaced : TelemetrySender P → Type 0
  IsPaced t = IsBounded t.flush_interval × IsBounded t.backoff

  IsPaced-IsClosed : IsClosed IsPaced
  unfolding retry_later bump_backoff
  IsPaced-IsClosed = record {
    acks = λ ns t paced. paced;
    retries = λ ns error t (interval, (low, high)). (interval, (omega arith, omega arith));
    hears = λ cs t paced. paced;
    resets = λ t (interval, backoff). (interval, interval);
  }

  run_round-nap :
      (answer : Answer) (meanwhile : List (Call P)) (t : TelemetrySender P)
      → IsPaced t
      → Naps (run_round answer meanwhile t).1
  unfolding run_round
  run_round-nap answer meanwhile t paced = elim (Bool-cases (ltb 0 (tick answer meanwhile t).1)) [
    | inl e ↦ rw (e, run_round) (inl refl)
    | inr e ↦
        rw (e, run_round) (inr (kept-tick IsPaced IsPaced-IsClosed answer meanwhile t paced).1)
  ]

  run_forever-IsPaced :
      (rounds : List (Answer × List (Call P))) (t : TelemetrySender P)
      → IsPaced t
      → All Naps (run_forever rounds t).1
  unfolding run_forever
  run_forever-IsPaced [] t paced = tt
  run_forever-IsPaced ((answer, meanwhile) ∷ rounds) t paced = (
    run_round-nap answer meanwhile t paced,
    run_forever-IsPaced rounds (run_round answer meanwhile t).0
        (kept-run_round IsPaced IsPaced-IsClosed answer meanwhile t paced),
  )

  -- The sender that the start makes from settings that were accepted sleeps, in every round and whatever
  -- the gateway answers, not at all or for at least half a second and at most five minutes.
  pub run_forever-Naps :
      (cfg : Settings) (store : AnyTelemetryStore P) (rounds : List (Answer × List (Call P)))
      → is_accepted cfg ≡ true
      → All Naps
          (run_forever rounds (record {
            store = store;
            batch_size = cfg.telemetry_batch_size;
            flush_interval = cfg.telemetry_flush_interval;
            backoff = cfg.telemetry_flush_interval;
          })).1
  run_forever-Naps cfg store rounds h =
      let interval = accepted_interval cfg h in run_forever-IsPaced rounds _ (interval, interval)
