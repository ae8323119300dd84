-- ===== src/App/Factory.antt =====
-- `create_app` of src/edge/app.py with the routers of src/edge/routes, `main` of src/edge/__main__.py, and
-- the two accessors of the cache's singleton. `docs_url` and
-- `redoc_url` are kept as they are passed on; the routes that FastAPI makes of them and of the schema
-- are its own and not in `routes`.
use Prim.Native.Nat.{ℕ}
use Prim.Native.String
use Prim.Native.String.{String}
use mathlib.Core.Bool.{Bool, true, false, ◌&&◌}
use mathlib.Core.Option.{Option, none, some}
use mathlib.Core.List.{List, [], ◌∷◌, ◌++◌, map}
use text.Mathlib.Text.{◌==◌}
use trustmodel_edge.Prelude.Tests.{if◌then◌else◌}
use trustmodel_edge.Config.{Settings}
use trustmodel_edge.Policy.Cache.{PolicyCache, empty_cache}
use trustmodel_edge.Heartbeat.{HeartbeatState}

pub data Method : Type 0 where
  get post : Method

-- The handlers, by their functions' names.
pub data Endpoint : Type 0 where
  health_live health_ready metrics decide enroll_callback issue_token telemetry_flush : Endpoint

pub record Route : Type 0 where
  pub method : Method
  pub path : String
  pub endpoint : Endpoint

abbrev pub route : Method → String → Endpoint → Route
route method path endpoint = record { method = method; path = path; endpoint = endpoint }

-- The routers.
abbrev health_router : List Route
health_router = route get "/health/live" health_live ∷ route get "/health/ready" health_ready ∷ []

abbrev metrics_router : List Route
metrics_router = route get "/metrics" metrics ∷ []

abbrev decide_router : List Route
decide_router = route post "/decide" decide ∷ []

abbrev enroll_router : List Route
enroll_router = route post "/enroll-callback" enroll_callback ∷ []

abbrev oauth_router : List Route
oauth_router = route post "/oauth/token" issue_token ∷ []

abbrev telemetry_router : List Route
telemetry_router = route post "/telemetry-flush" telemetry_flush ∷ []

-- `FastAPI`: the two settings of its documents, `app.state`, and the routes of the routers.
pub record App : Type 0 where
  pub docs_url : Option String
  pub redoc_url : Option String
  pub settings : Settings
  pub skip_enrollment : Bool
  pub enrollment_complete : Bool
  pub heartbeat : Option HeartbeatState
  pub routes : List Route

abbrev prefixed : String → Route → Route
prefixed prefix r = record r { path = String.◌++◌ prefix r.path }

-- `app.include_router(router, prefix=prefix)`
abbrev include_router : List Route → String → App → App
include_router router prefix app = record app {
  routes = app.routes ++ map (prefixed prefix) router;
}

unfoldable pub create_app : Settings → Bool → App
create_app cfg skip_enrollment =
    let app : App = record {
      docs_url = some "/docs";
      redoc_url = none;
      settings = cfg;
      skip_enrollment = skip_enrollment;
      enrollment_complete = false;
      heartbeat = none;
      routes = [];
    } in
    include_router telemetry_router "/v1" (
      include_router oauth_router "/mcp" (
        include_router oauth_router "/v1" (
          include_router enroll_router "/v1" (
            include_router decide_router "/v1"
              (include_router metrics_router "" (include_router health_router "" app))))))

-- What `main` hands to `uvicorn.run`: the app, the host and the port.
abbrev main : Settings → App × String × ℕ
main settings = (create_app settings false, settings.host, settings.port)

abbrev same_method : Method → Method → Bool
same_method get get = true
same_method post post = true
same_method _ _ = false

-- The handler of a request: the first route with its method and its path.
unfoldable pub endpoint_of : Method → String → List Route → Option Endpoint
endpoint_of method path [] = none
endpoint_of method path (r ∷ rs) =
    let rest = endpoint_of method path rs in
    if same_method r.method method && r.path == path then some r.endpoint else rest

-- `get_cache`: the singleton after the call, and the cache.
abbrev get_cache : Option PolicyCache → Option PolicyCache × PolicyCache
get_cache none = (some empty_cache, empty_cache)
get_cache (some cache) = (some cache, cache)

-- `reset_cache`
abbrev reset_cache : Option PolicyCache → Option PolicyCache
reset_cache singleton = none
