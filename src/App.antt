-- ===== src/App.antt =====
-- src/edge/app.py: the start of a pod, its tasks and its end. A pod has one lifespan, so the cache and
-- the store of the process are those of the pod, and both are made at the start.
pub mod Steps
pub mod Exits
pub mod Ready
pub mod Revoked
pub mod Began
pub mod Factory
pub mod Private
use Prim.Native.Nat.{ℕ, ◌+◌}
use Prim.Native.String.{String}
use mathlib.Core.Bool.{Bool, true, false}
use mathlib.Core.Option.{Option, none, some}
use mathlib.Core.List.{List}
use trustmodel_edge.Prelude.Tests.{if◌then◌else◌}
use trustmodel_edge.Value.{Value, PyText}
use trustmodel_edge.Config.{Settings}
use trustmodel_edge.Policy.Bundle.{AuthorizedClient}
use trustmodel_edge.Policy.Disk.{Codec, Disk, Faults}
use trustmodel_edge.Policy.Cache.{PolicyCache, empty_cache}
use trustmodel_edge.Policy.Cache.Loading.{Load, loaded, not_loaded, crashed, load_from_disk}
use trustmodel_edge.Policy.Client.{Reply, unminted}
use trustmodel_edge.Policy.Sync.{Round, warm}
use trustmodel_edge.Telemetry.Store.{AnyTelemetryStore, noop}
use trustmodel_edge.Telemetry.Sender.{TelemetrySender}
use trustmodel_edge.Telemetry.Contract.{any_queue}
use trustmodel_edge.Telemetry.Sender.Failing.{Meeting, flush_now_raising}
use trustmodel_edge.Telemetry.Opening.{DbFiles, Opened, Opening, Cleanups, get_store}
use trustmodel_edge.Identity.{EdgeCredentials, CredentialFiles, Formats, TokenFile, Interrupt}
use trustmodel_edge.Policy.Jwt.{Minted, minted_token, not_enrolled, mint_raised, mint_cert_jwt}
use trustmodel_edge.ControlPlane.{Gateway}
use trustmodel_edge.Enroll.{
  Bootstrapped, usable, enrollment_failed, bootstrap_raised, bootstrap_if_needed,
}
use trustmodel_edge.Heartbeat.{HeartbeatState, LoopEnd, loop_returned, loop_raised, looping}

-- `app.state`, the tasks and the singletons: `beating` is how far the heartbeat task is, `files` and
-- `policy.1` are the state directory. `P` is the type of an event, `Text` of a policy file's text.
pub record Pod (Text P : Type 0) : Type 0 where
  pub enrollment_complete : Bool
  pub heartbeat : Option HeartbeatState
  pub beating : LoopEnd
  pub files : CredentialFiles
  pub policy_warm_ok : Bool
  pub policy : PolicyCache × Disk Text
  pub sender : TelemetrySender P

-- What a pod finds on disk.
pub record StateDir (Text F : Type 0) : Type 0 where
  pub credential_files : CredentialFiles
  pub policy_files : Disk Text
  pub db_files : DbFiles F

-- What a start meets: the token's file, the gateway's answers (the policies by the token of the
-- request), the clocks and what fails.
pub record Surroundings : Type 0 where
  pub token_file : TokenFile
  pub gateway : Gateway
  pub interrupt : Interrupt
  pub enroll_at : ℕ
  pub mint_at : ℕ
  pub on_policies : String → Reply
  pub on_policy : String → Reply
  pub sync_at : ℕ
  pub faults : Faults
  pub mkdir_fails : Bool
  pub cleanups : Cleanups

-- A pod that serves, `SystemExit(2)`, or another exception.
pub data Started (Text P : Type 0) : Type 0 where
  running : Pod Text P → Started Text P
  exit_2 : Started Text P
  start_raised : Started Text P

-- How the process ends: by itself, with `SystemExit(3)`, or with another exception.
pub data Ended : Type 0 where
  exit_0 : Ended
  exit_3 : Ended
  end_raised : Ended

abbrev reply_of : Minted → (String → Reply) → Reply
reply_of (minted_token token) answer = answer token
reply_of not_enrolled answer = unminted
reply_of mint_raised answer = unminted

-- The requests of the first sync, each with a token of its own.
abbrev pub first_round : Surroundings → Minted → Round
first_round around minted = record {
  plural = reply_of minted around.on_policies;
  singular = reply_of minted around.on_policy;
  now = around.sync_at;
  faults = around.faults;
}

-- `HeartbeatState(creds)`, where the pod is enrolled
abbrev pub heartbeat_state : Option EdgeCredentials → Option HeartbeatState
heartbeat_state none = none
heartbeat_state (some creds) =
    some (record { credentials = creds; revoked = false; last_tick_ok_at = none })

-- `load_from_disk` on the cache that `get_cache` makes
abbrev pub cache_of : Load → Option PolicyCache
cache_of (loaded cache) = some cache
cache_of not_loaded = some empty_cache
cache_of crashed = none

module _ {F P : Type 0} (codec : Codec) (py : PyText)
    (validate_client : Value → Option AuthorizedClient) (formats : Formats)
    (connect : DbFiles F → DbFiles F × Opened P) (lower : String → String) (cfg : Settings) where
  abbrev sender_of : Option (AnyTelemetryStore P) → TelemetrySender P
  sender_of o = record {
    store = elim o [ none ↦ noop 0 | some s ↦ s ];
    batch_size = cfg.telemetry_batch_size;
    flush_interval = cfg.telemetry_flush_interval;
    backoff = cfg.telemetry_flush_interval;
  }

  abbrev pub opening_of : Surroundings → Opening
  opening_of around = record {
    max_size = cfg.telemetry_queue_size;
    mkdir_fails = around.mkdir_fails;
    cleanups = around.cleanups;
  }

  -- What the start does once the cache is warmed.
  abbrev pub serving :
      Surroundings
      → DbFiles F
      → Option EdgeCredentials
      → CredentialFiles
      → (PolicyCache × Disk codec.Text) × Bool
      → Pod codec.Text P
  serving around db creds files (policy, warm_ok) = record {
    enrollment_complete = true;
    heartbeat = heartbeat_state creds;
    beating = looping;
    files = files;
    policy_warm_ok = warm_ok;
    policy = policy;
    sender = sender_of (get_store connect lower none (some (opening_of around)) db).1;
  }

  -- `policy_warm` raises `RuntimeError`, which is caught, unless minting raises another exception.
  abbrev pub warmed_by :
      Surroundings
      → DbFiles F
      → Option EdgeCredentials
      → CredentialFiles
      → PolicyCache × Disk codec.Text
      → Minted
      → Started codec.Text P
  warmed_by around db creds files policy mint_raised = start_raised
  warmed_by around db creds files policy not_enrolled = running (
      serving around db creds files (
        warm codec py validate_client false cfg.multi_policy_enabled
          (first_round around not_enrolled) policy))
  warmed_by around db creds files policy (minted_token token) = running (
      serving around db creds files (
        warm codec py validate_client false cfg.multi_policy_enabled
          (first_round around (minted_token token)) policy))

  -- The start behind the enrollment.
  unfoldable pub start_policy :
      Surroundings
      → StateDir codec.Text F
      → Option EdgeCredentials
      → CredentialFiles
      → Started codec.Text P
  unfolding load_from_disk warm get_store mint_cert_jwt
  start_policy around dir creds files = elim (cache_of (load_from_disk codec py dir.policy_files)) [
    | none ↦ start_raised
    | some cache ↦
        warmed_by around dir.db_files creds files (cache, dir.policy_files)
          (mint_cert_jwt formats around.mint_at files)
  ]

  abbrev pub enrolled_start :
      Surroundings → StateDir codec.Text F → CredentialFiles × Bootstrapped → Started codec.Text P
  enrolled_start around dir (files, usable creds) = start_policy around dir (some creds) files
  enrolled_start around dir (files, enrollment_failed) = exit_2
  enrolled_start around dir (files, bootstrap_raised) = start_raised

  -- `_lifespan` up to its `yield`.
  unfoldable pub startup : Bool → Surroundings → StateDir codec.Text F → Started codec.Text P
  unfolding start_policy bootstrap_if_needed
  startup true around dir = start_policy around dir none dir.credential_files
  startup false around dir = enrolled_start around dir (
      bootstrap_if_needed formats cfg around.gateway around.token_file around.interrupt
        around.enroll_at dir.credential_files)

-- Awaiting the task raises its exception; a task that was cancelled or has returned does not.
abbrev pub exit_by : Bool → LoopEnd → Ended
exit_by revoked loop_raised = end_raised
exit_by revoked loop_returned = if revoked then exit_3 else exit_0
exit_by revoked looping = if revoked then exit_3 else exit_0

module _ {Text P : Type 0} where
  abbrev pub ended : Pod Text P → Ended
  ended pod = elim pod.heartbeat [ none ↦ exit_0 | some state ↦ exit_by state.revoked pod.beating ]

  -- `_lifespan` behind its `yield`: the queue is drained for some time (an exception there is caught),
  -- the tasks are cancelled, and the process ends.
  unfoldable pub shutdown : Settings → ℕ → List (ℕ × Meeting P) → Pod Text P → Pod Text P × Ended
  unfolding flush_now_raising
  shutdown cfg now rounds pod =
      let (sender, _, _) =
        flush_now_raising any_queue (now + cfg.telemetry_drain_timeout) rounds 0 pod.sender in
      (record pod { sender = sender }, ended pod)
