-- ===== src/Examples/Running.antt =====
-- A pod (src/edge/app.py) from its start to its end.
use Prim.Native.Nat.{ℕ}
use Prim.Native.String.{String}
use mathlib.Core.Path.{◌≡◌, refl, subst}
use mathlib.Core.Bool.{true, false}
use mathlib.Core.Option.{Option, none, some}
use mathlib.Core.List.{List, [], ◌∷◌}
use native.Mathlib.Omega.{arith}
use trustmodel_edge.Prelude.Text.{drop_prefix}
use trustmodel_edge.Value.{str}
use trustmodel_edge.Config.{Settings, default_settings}
use trustmodel_edge.Policy.Cache.{empty_cache}
use trustmodel_edge.Policy.Cache.Loading.{load_from_disk}
use trustmodel_edge.Policy.Client.{response}
use trustmodel_edge.Policy.Sync.{warm, sync_once}
use trustmodel_edge.Telemetry.Store.{QueuedEvent, durable, fresh}
use trustmodel_edge.Telemetry.Store.Queue
use trustmodel_edge.Telemetry.Sender.{status}
use trustmodel_edge.Telemetry.Sender.Failing.{writes_fail}
use trustmodel_edge.Telemetry.Opening.{
  DbFiles, Opened, opened, database_error, renamed, unlinked, Cleanups, Opening, get_store,
  is_corrupt, any_occurs,
}
use trustmodel_edge.Telemetry.Opening.Recovered.{MakesFresh, get_store-fresh}
use trustmodel_edge.Telemetry.Opening.Sound.{GivesQueue}
use trustmodel_edge.Identity.{
  CredentialFiles, token_text, uninterrupted, load_credentials, persist_credentials,
  read_bootstrap_token,
}
use trustmodel_edge.Policy.Jwt.{minted_token, mint_cert_jwt}
use trustmodel_edge.ControlPlane.{enroll}
use trustmodel_edge.Enroll.{bootstrap_if_needed}
use trustmodel_edge.Heartbeat.{one_tick}
use trustmodel_edge.Routes.Health.{health_ready}
use trustmodel_edge.App.{
  Pod, StateDir, Surroundings, running, first_round, serving, start_policy, startup, shutdown,
  exit_3,
}
use trustmodel_edge.App.Steps.{beats, syncs, Reach, start, after, ticked, edge_of}
use trustmodel_edge.App.Steps.Valid.{IsSound, first_opening, Reach-IsSound}
use trustmodel_edge.App.Exits.{EndsBy, shutdown-EndsBy}
use trustmodel_edge.App.Ready.{Reach-ready}
use trustmodel_edge.App.Revoked.{Reach-revoked}
use trustmodel_edge.Heartbeat.{loop_returned}
use trustmodel_edge.Routes.Health.{is_revoked}
use trustmodel_edge.Examples.Evaluation.{py}
use trustmodel_edge.Examples.Caching.{codec, main, validate_client, bad_round, nothing_fails}
use trustmodel_edge.Examples.Caching
use trustmodel_edge.Examples.Enrolling.{formats, gateway, revoking, decimal, next_creds, no_files}
use trustmodel_edge.Examples.Rotating.{tick_by}

-- SQLite refuses any file that it finds.
abbrev connect : DbFiles String → DbFiles String × Opened String
connect files = elim files.db [
  | none ↦ (files, opened [] 1)
  | some text ↦ (files, database_error "file is not a database")
]

abbrev lower : String → String
lower t = t

abbrev cleanups : Cleanups
cleanups = record { db = renamed; wal = unlinked; shm = renamed }

abbrev opening : Opening
opening = record { max_size = 10; mkdir_fails = false; cleanups = cleanups }

abbrev junk : DbFiles String
junk = record { db = some "junk"; wal = some "wal"; shm = none; aside = [] }

corrupt : is_corrupt connect lower "file is not a database" ≡ true
unfolding any_occurs drop_prefix
corrupt = refl

fresh_made : MakesFresh connect lower
fresh_made aside = refl

get_store-fresh_example :
    (get_store connect lower none (some opening) junk).1 ≡ some (durable (fresh 10))
get_store-fresh_example =
    get_store-fresh connect lower opening junk junk "file is not a database" refl refl corrupt
      (λ e. absurd (cc)) (λ e. absurd (cc)) (λ e. absurd (cc)) fresh_made

abbrev cfg : Settings
cfg = default_settings "acme"

abbrev around : Surroundings
around = record {
  token_file = token_text "tok";
  gateway = gateway;
  interrupt = uninterrupted;
  enroll_at = 100;
  mint_at = 200;
  on_policies = λ token. response 404 "" none;
  on_policy = λ token. response 200 "" (some (str "main"));
  sync_at = 9;
  faults = nothing_fails;
  mkdir_fails = false;
  cleanups = cleanups;
}

-- An empty directory.
abbrev dir : StateDir codec.Text String
dir = record {
  credential_files = no_files;
  policy_files = Caching.no_files;
  db_files = record { db = none; wal = none; shm = none; aside = [] };
}

abbrev enrolled_files : CredentialFiles
enrolled_files = record { cert = some "C2"; key = some "K2"; ca = some "A2"; meta = some "{}" }

abbrev pod : Pod codec.Text String
pod =
    serving codec py validate_client formats connect lower cfg around dir.db_files (some next_creds)
      enrolled_files
      (warm codec py validate_client false cfg.multi_policy_enabled
        (first_round around (minted_token "jwt")) (empty_cache, Caching.no_files))

pod_starts :
    startup codec py validate_client formats connect lower cfg false around dir ≡ running pod
unfolding startup start_policy bootstrap_if_needed load_from_disk mint_cert_jwt read_bootstrap_token
    persist_credentials enroll load_credentials default_settings
pod_starts = refl

empty_opened :
    (files : DbFiles String) (db : Option String) (rows : List (QueuedEvent String)) (next_id : ℕ)
    → files.db ≡ db
    → (connect files).1 ≡ opened rows next_id
    → ◌≡◌ {A = List (QueuedEvent String) × ℕ} ([], 1) (rows, next_id)
empty_opened files none rows next_id e h = cc (rw e at h)
empty_opened files (some text) rows next_id e h = absurd (cc (rw e at h))

-- The queue that SQLite makes.
fresh-IsValid : Queue.IsValid {P = String} (fresh cfg.telemetry_queue_size)
fresh-IsValid = record { ascending = tt; below = tt; bounded = omega arith }

gives_queue :
    GivesQueue connect lower
      (first_opening codec py validate_client formats decimal false connect lower cfg around dir)
gives_queue files rows next_id e =
    subst
      (λ (q : List (QueuedEvent String) × ℕ).
        Queue.IsValid
          (record { rows = q.0; next_id = q.1; max_size = cfg.telemetry_queue_size; dropped = 0 }))
      (empty_opened files _ rows next_id refl e) fresh-IsValid

-- The sync fails once.
abbrev synced : Pod codec.Text String
synced = record pod { policy = (sync_once codec py validate_client false bad_round pod.policy).0 }

sync_reached : Reach codec py validate_client formats decimal false pod synced
sync_reached = after start (syncs bad_round)

Reach-IsSound_example : IsSound codec py validate_client formats decimal false synced
Reach-IsSound_example =
    Reach-IsSound codec py validate_client formats decimal false connect lower cfg around dir false
      pod synced pod_starts gives_queue sync_reached

warm_ok : pod.policy_warm_ok ≡ true
unfolding warm default_settings
warm_ok = refl

single : cfg.multi_policy_enabled ≡ false
unfolding default_settings
single = refl

Reach-ready_example :
    (health_ready synced.enrollment_complete synced.heartbeat synced.policy.0).0 ≡ 200
Reach-ready_example =
    Reach-ready codec py validate_client formats decimal connect lower cfg around dir false pod
      synced pod_starts single warm_ok sync_reached refl

-- The gateway revokes the Edge.
abbrev revoked_pod : Pod codec.Text String
revoked_pod = ticked codec py validate_client formats decimal false pod (
    one_tick formats decimal (tick_by revoking) (
      edge_of codec py validate_client formats decimal false pod
        (record { credentials = next_creds; revoked = false; last_tick_ok_at = none })))

revoked_reached : Reach codec py validate_client formats decimal false pod revoked_pod
revoked_reached = after start (
    beats (record { credentials = next_creds; revoked = false; last_tick_ok_at = none })
      (tick_by revoking) refl refl)

shutdown-EndsBy_example :
    EndsBy revoked_pod.heartbeat revoked_pod.beating
      (shutdown cfg 900 ((901, (writes_fail, status 200 "", [])) ∷ []) revoked_pod).1
shutdown-EndsBy_example =
    shutdown-EndsBy codec py validate_client formats decimal false connect lower cfg around dir
      false pod revoked_pod pod_starts revoked_reached 900
      ((901, (writes_fail, status 200 "", [])) ∷ [])

flag_set : is_revoked revoked_pod.heartbeat ≡ true
unfolding one_tick
flag_set = refl

exits_with_3 :
    (shutdown cfg 900 ((901, (writes_fail, status 200 "", [])) ∷ []) revoked_pod).1 ≡ exit_3
unfolding shutdown one_tick
exits_with_3 = refl

-- A sync follows the revocation.
Reach-revoked_example :
    ((health_ready revoked_pod.enrollment_complete revoked_pod.heartbeat
        (sync_once codec py validate_client false bad_round revoked_pod.policy).0.0).0
      ≡ 503)
    × (revoked_pod.beating ≡ loop_returned)
Reach-revoked_example =
    Reach-revoked codec py validate_client formats decimal false connect lower cfg around dir false
      pod revoked_pod
      (record revoked_pod {
        policy = (sync_once codec py validate_client false bad_round revoked_pod.policy).0;
      })
      pod_starts revoked_reached flag_set (after start (syncs bad_round))
