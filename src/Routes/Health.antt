-- ===== src/Routes/Health.antt =====
-- src/edge/routes/health.py. `last_sync_at` is the time behind the text, and none stands for null.
pub mod Gates
use Prim.Native.Nat.{ℕ}
use Prim.Native.String.{String}
use mathlib.Core.Bool.{Bool, false, ◌||◌, not}
use mathlib.Core.Option
use mathlib.Core.Option.{Option, none, some}
use mathlib.Core.List.{List, [], ◌∷◌, ◌++◌}
use trustmodel_edge.Prelude.Tests.{if◌then◌else◌}
use trustmodel_edge.Prelude.Text.{join}
use trustmodel_edge.Policy.Cache.{PolicyCache, is_warm}
use trustmodel_edge.Heartbeat.{HeartbeatState}

-- `__version__`
abbrev version : String
version = "0.6.0"

pub record HealthBody : Type 0 where
  pub version : String
  pub enrollment_complete : Bool
  pub revoked : Bool
  pub policy_cache_warm : Bool
  pub last_sync_at : Option ℕ
  pub edge_id : Option String
  pub tenant_id : Option String
  pub status : String
  pub reason : Option String

abbrev pub is_revoked : Option HeartbeatState → Bool
is_revoked none = false
is_revoked (some heartbeat) = heartbeat.revoked

abbrev only_if : Bool → String → List String
only_if b s = if b then s ∷ [] else []

abbrev reasons : Bool → Bool → Bool → List String
reasons enrollment_complete revoked cache_warm =
    only_if (not enrollment_complete) "enrollment incomplete"
    ++ (only_if revoked "revoked" ++ only_if (not cache_warm) "policy cache not warm")

-- The status and the body.
pub health_ready : Bool → Option HeartbeatState → PolicyCache → ℕ × HealthBody
unfolding is_warm join
health_ready enrollment_complete heartbeat cache =
    let revoked = is_revoked heartbeat in
    let cache_warm = is_warm cache in
    let body : HealthBody = record {
      version = version;
      enrollment_complete = enrollment_complete;
      revoked = revoked;
      policy_cache_warm = cache_warm;
      last_sync_at = if cache_warm then cache.last_success_at else none;
      edge_id = Option.map (λ h. h.credentials.edge_id) heartbeat;
      tenant_id = Option.map (λ h. h.credentials.tenant_id) heartbeat;
      status = "ready";
      reason = none;
    } in
    if not enrollment_complete || (revoked || not cache_warm)
    then (
      503,
      record body {
        status = "not_ready";
        reason = some (join "; " (reasons enrollment_complete revoked cache_warm));
      },
    )
    else (200, body)
