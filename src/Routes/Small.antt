-- ===== src/Routes/Small.antt =====
-- src/edge/routes/metrics.py, src/edge/routes/telemetry.py and src/edge/routes/enroll.py.
use Prim.Native.Nat.{ℕ, ◌+◌}
use Prim.Native.String.{String}
use mathlib.Core.Bool.{Bool}
use mathlib.Core.Option.{Option, none, some}
use mathlib.Core.List.{List}
use trustmodel_edge.Prelude.Int.{ℤ, pos, sub_ℕ}
use trustmodel_edge.Config.{Settings}
use trustmodel_edge.Policy.Cache.{PolicyCache}
use trustmodel_edge.Telemetry.Sender.{TelemetrySender}
use trustmodel_edge.Telemetry.Contract.{any_queue}
use trustmodel_edge.Telemetry.Sender.Failing.{Meeting, flush_now_raising}

-- The gauges `cache_age_seconds` and `stale_seconds` that a scrape sets, in microseconds.
unfoldable gauges : ℕ → PolicyCache → ℤ × ℤ
gauges now cache = elim cache.last_success_at [
  | none ↦ (pos 0, pos 0)
  | some last ↦ (sub_ℕ now last, sub_ℕ now last)
]

-- The rounds and the last part are those of `flush_now`; without a number an exception propagates.
unfoldable telemetry_flush :
    {P : Type 0}
    → Settings
    → ℕ
    → List (ℕ × Meeting P)
    → TelemetrySender P
    → TelemetrySender P × Option ℕ × Bool
unfolding flush_now_raising
telemetry_flush cfg now rounds sender =
    flush_now_raising any_queue (now + cfg.telemetry_drain_timeout) rounds 0 sender

-- The status, and `error` of the answer.
abbrev enroll_callback : ℕ × String
enroll_callback = (501, "not_implemented")
