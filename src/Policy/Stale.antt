-- ===== src/Policy/Stale.antt =====
-- src/edge/policy/stale.py. Times and ages are microseconds, thresholds are seconds.
use Prim.Native.Nat.{ℕ, ◌*◌}
use Prim.Native.String.{String}
use mathlib.Core.Bool.{Bool, true}
use mathlib.Core.Option.{Option, none, some}
use text.Mathlib.Text.{◌==◌}
use trustmodel_edge.Prelude.Tests.{if◌then◌else◌}
use trustmodel_edge.Prelude.Int.{ℤ, pos, sub_ℕ, ltb_ℤ}
use trustmodel_edge.Policy.Cache.{PolicyCache}

-- `infinite` is float("inf").
pub data Age : Type 0 where
  infinite : Age
  micros : ℤ → Age

pub record StaleStatus : Type 0 where
  pub is_stale : Bool
  pub since_refresh : Age
  pub last_success_at : Option ℕ

unfoldable pub status : ℕ → PolicyCache → ℕ → StaleStatus
status now cache threshold_seconds = elim cache.last_success_at [
  | none ↦ record { is_stale = true; since_refresh = infinite; last_success_at = none }
  | some last ↦
      let age = sub_ℕ now last in
      record {
        is_stale = ltb_ℤ (pos (threshold_seconds * 1000000)) age;
        since_refresh = micros age;
        last_success_at = some last;
      }
]

-- The verdict and the reason for a fail mode.
unfoldable pub fail_mode_verdict : String → String × String
fail_mode_verdict fail_mode =
    if fail_mode == "open"
    then ("allow", "edge.policy_stale.fail_open")
    else ("deny", "edge.policy_stale.fail_closed")
