-- ===== src/Config.antt =====
-- src/edge/config.py. Durations that are fractions of a second there are milliseconds here, and paths
-- are texts. `control_plane_url` is what `str` makes of the URL.
use Prim.Native.Nat.{ℕ}
use Prim.Native.String.{String}
use mathlib.Core.Bool.{Bool, true, false, ◌&&◌, ◌||◌, not}
use mathlib.Core.Option.{Option, none}
use text.Mathlib.Text.{◌==◌}
use trustmodel_edge.Prelude.Tests.{leb, if◌then◌else◌}

pub record Settings : Type 0 where
  pub tenant_id : String
  pub pod_id : String
  pub control_plane_url : String
  pub bootstrap_token_path : String
  pub state_dir : String
  pub telemetry_dir : Option String
  pub telemetry_queue_size : ℕ
  pub telemetry_batch_size : ℕ
  pub telemetry_flush_interval : ℕ
  pub telemetry_drain_timeout : ℕ
  pub policy_sync_interval_seconds : ℕ
  pub policy_stale_threshold_seconds : ℕ
  pub policy_fail_mode : String
  pub policy_request_timeout : ℕ
  pub multi_policy_enabled : Bool
  pub oauth_token_ttl_seconds : ℕ
  pub log_level : String
  pub telemetry_omit_payload : Bool
  pub telemetry_subject_hash_key : String
  pub host : String
  pub port : ℕ
  pub bootstrap_token : String
  pub cluster_fingerprint : String
  pub heartbeat_interval_s : ℕ

-- The default of each field; `tenant_id` has none.
unfoldable pub default_settings : String → Settings
default_settings tenant_id = record {
  tenant_id = tenant_id;
  pod_id = "edge-local";
  control_plane_url = "https://api.trustmodel.ai/";
  bootstrap_token_path = "/etc/trustmodel/bootstrap-token";
  state_dir = "/var/lib/trustmodel";
  telemetry_dir = none;
  telemetry_queue_size = 10000;
  telemetry_batch_size = 100;
  telemetry_flush_interval = 5000;
  telemetry_drain_timeout = 30000;
  policy_sync_interval_seconds = 300;
  policy_stale_threshold_seconds = 3600;
  policy_fail_mode = "closed";
  policy_request_timeout = 10000;
  multi_policy_enabled = false;
  oauth_token_ttl_seconds = 3600;
  log_level = "INFO";
  telemetry_omit_payload = true;
  telemetry_subject_hash_key = "";
  host = "0.0.0.0";
  port = 8080;
  bootstrap_token = "";
  cluster_fingerprint = "";
  heartbeat_interval_s = 60;
}

abbrev between : ℕ → ℕ → ℕ → Bool
between low high n = leb low n && leb n high

-- The constraints `ge`, `le` and `Literal`: without them `Settings()` raises.
unfoldable pub is_accepted : Settings → Bool
is_accepted cfg =
    between 100 1000000 cfg.telemetry_queue_size
    && (between 1 10000 cfg.telemetry_batch_size
        && (between 500 300000 cfg.telemetry_flush_interval
            && (between 0 300000 cfg.telemetry_drain_timeout
                && (between 10 3600 cfg.policy_sync_interval_seconds
                    && (leb 60 cfg.policy_stale_threshold_seconds
                        && ((cfg.policy_fail_mode == "open" || cfg.policy_fail_mode == "closed")
                            && (between 1000 60000 cfg.policy_request_timeout
                                && (between 60 86400 cfg.oauth_token_ttl_seconds
                                    && (between 1 65535 cfg.port
                                        && between 5 3600 cfg.heartbeat_interval_s)))))))))

unfoldable pub subject_id_mode : Settings → String
subject_id_mode cfg =
    if not cfg.telemetry_omit_payload
    then "raw"
    else if cfg.telemetry_subject_hash_key == ""
    then "withheld"
    else "hashed"
