-- ===== src/Lib.antt =====
-- trustmodel-edge: the Edge pod: enrollment and rotation, the policy cache, the engine, the token
-- endpoint, the decisions, the telemetry queue, and the lifespan that ties them together.
--
-- The pod keeps a tenant's policies in memory and on disk, decides on the actions of agents by
-- them, and ships an audit event of each decision to the gateway. `decide`
-- (src/edge/routes/decide.py) verifies the caller's token (src/edge/oauth.py), reads the policy
-- from the cache (src/edge/policy/cache.py), asks whether it is stale (src/edge/policy/stale.py),
-- evaluates it (src/edge/engine/evaluator.py) and puts the audit event
-- (src/edge/telemetry/payload.py) into the queue (src/edge/telemetry/store.py). The sync
-- (src/edge/policy/sync.py with src/edge/policy/client.py) replaces the cache, which compiles the
-- policies (src/edge/engine/compiler.py) and writes them to disk. The sender
-- (src/edge/telemetry/sender.py) empties the queue.
--
-- The pod enrolls once (src/edge/enroll.py) by a call of the control plane
-- (src/edge/control_plane.py) and keeps its credentials in four files (src/edge/identity.py),
-- with which it mints the tokens of its own requests (src/edge/policy/jwt.py). The heartbeat
-- (src/edge/heartbeat.py) rotates them and learns of a revocation. src/edge/app.py starts all
-- this, lets the heartbeat, the sync, the sender and the handlers take turns on one event loop,
-- and ends the process. App/Steps has these turns as a relation; the theorems there compose the
-- parts.
--
-- Files:
--   Prelude: Boolean tests, lists, sorting, dictionaries, integers and the operations of texts
--     that the program uses.
--   Value: the JSON values that `Any` stands for.
--   Config: `Settings` of src/edge/config.py.
--   Identity: src/edge/identity.py; Restored and Interrupted the proofs. Policy/Jwt is
--     src/edge/policy/jwt.py.
--   ControlPlane: `enroll`, `rotate` and `heartbeat` of src/edge/control_plane.py.
--   Enroll: `bootstrap_if_needed`; Enroll/Idempotent the proofs.
--   Heartbeat: `one_tick` and `heartbeat_loop`; Heartbeat/Rotated and Heartbeat/Revoked the
--     proofs.
--   App: `startup` and `shutdown`, the two halves of `_lifespan`; App/Steps the turns in between;
--     App/Private what leaves a pod through its telemetry; App/Factory `create_app` with the
--     routes and `main`; Began, Ready, Revoked and Exits the proofs.
--   Outbound: the requests that the pod sends: their URLs, header and body; Outbound/Addressed
--     the proof.
--   Policy/Bundle: the records of src/edge/policy/bundle.py.
--   Policy/Cache: `PolicyCache`; Policy/Disk the files that it writes, Policy/Cache/Loading
--     `load_from_disk`; Validity, Restored, Reads, Named, Files and Restart the proofs.
--   Policy/Stale: `status` and `fail_mode_verdict`.
--   Policy/Client: `fetch` and `fetch_all`; Policy/Sync `sync_once`, `warm` and `run_forever`,
--     with the proofs in Policy/Sync/Kept.
--   Engine/Compiler: `compile_policy`; Engine/Evaluator `evaluate`; Engine/Compiler/Ranked is
--     about the order of the compiled rules, Engine/Conditions and Engine/Priority relate both to
--     the raw rules.
--   Telemetry/Store: `TelemetryStore` and `NoopTelemetryStore`; Telemetry/Sender
--     `TelemetrySender` and `flush_now`, with the proofs in Ticks, Drain, Bounds and Delivered.
--     Telemetry/Contract is what the sender relies on in a store, a record of operations and one
--     of laws, and Telemetry/Contract/Stores is about both classes; Telemetry/Sender/Failing is
--     the sender over that contract with the exceptions that a tick does not catch, and Agrees,
--     Kept, Results, Turns, Lossless, Recovers and Paced are about it. Telemetry/Opening
--     `get_store` and the repair of corrupt files; Telemetry/Payload the audit event.
--   Oauth: src/edge/oauth.py; Oauth/Hash is about stored secrets, Oauth/Clients about the lookup
--     of a client, and Oauth/Timing counts the calls of PBKDF2.
--   Routes: the answers and the keys that the handlers share; Routes/Token is `issue_token`, with
--     Issued, Paired and Verified on the token, its keys and its reading, Routes/Decide is
--     `decide`, with Routes/Decide/Queued and Private on what it queues and Recovers on what a
--     sync changes, and Routes/Bearer its authentication, Routes/Health is `health_ready`,
--     Routes/Small are the others.
--   Examples: the theorems at concrete inputs.
--
-- State is passed explicitly: a method takes the record of its object and gives the new one. An
-- exception is a constructor of the result, or `none`. The step of a task between two awaits is
-- one function; what other tasks do meanwhile is a list of calls. Loops are recursion on a list:
-- of rules, of policies, or of the rounds of a background task, each with what the network, the
-- clock and the file system do in it. `flush_now` takes the rounds until its deadline; one more
-- than the batches in the queue are enough.
--
-- What cuts a write short is an argument of the operation (`Faults`, `Interrupt`, `Cleanup`), so
-- is what raises in a tick of the sender (`Trouble`), and so is every answer of the other side
-- (`Gateway`, `Reply`, `Answer`).
--
-- Arguments of the model are: pydantic and json, the JWT library, PBKDF2, HMAC, uuid5, SQLite as
-- it opens its files, the formats of times, the clock, and how Python prints a value that is no
-- text. What a theorem needs of them is among its hypotheses.
--
-- Not modelled: the set-up of logging and of metrics, uvicorn, the compression of a batch, and
-- HTTP itself, which are calls of libraries; the declarations of the metrics, the re-exports of
-- the packages, and log lines. Numbers of JSON with a fraction are left out, and so is the limit
-- of Python on the digits of `int`. Times are numbers, so that a stored expiry without a time
-- zone, at whose comparison the start raises, does not occur. App/Steps has neither the handler
-- of the flush, whose ticks may run beside those of the sender, nor heartbeats during the
-- shutdown. FastAPI adds the routes of its schema and documents itself.
pub mod Prelude
pub mod Value
pub mod Config
pub mod Policy
pub mod Engine
pub mod Telemetry
pub mod Oauth
pub mod Identity
pub mod ControlPlane
pub mod Enroll
pub mod Heartbeat
pub mod App
pub mod Outbound
pub mod Routes
pub mod Examples
