-- ===== src/Outbound.antt =====
-- The requests that leave the pod: those of src/edge/control_plane.py, src/edge/policy/client.py and
-- src/edge/telemetry/sender.py. The JSON text and its compression are the libraries'; what a request is
-- answered is told where it is made.
pub mod Addressed
use Prim.Native.Nat.{ℕ}
use Prim.Native.String
use Prim.Native.String.{String}
use mathlib.Core.Option.{Option, none, some}
use mathlib.Core.List.{List, [], ◌∷◌}
use trustmodel_edge.Prelude.Int.{pos}
use trustmodel_edge.Prelude.Text.{strip_right_of}
use trustmodel_edge.Value.{Value, Items, no_items, item, no_entries, entry, int, str, list, dict}

-- The URL, the header `Authorization` and the JSON body; a GET has no body.
pub record Outgoing : Type 0 where
  pub url : String
  pub authorization : Option String
  pub body : Option Value

-- What is asked, each with what its call passes on; a `String` alone is the token.
pub data Request : Type 0 where
  enroll : String → String → String → Request
  rotate : String → Request
  heartbeat : String → Request
  fetch_singular : String → Request
  fetch_plural : String → Request
  post_events : String → List Value → Request

-- The code of "/".
abbrev pub slash : ℕ
slash = 47

-- `control_plane_url.rstrip("/")`
unfoldable pub base_url : String → String
unfolding strip_right_of
base_url url = strip_right_of slash url

abbrev bearer : String → Option String
bearer token = some (String.◌++◌ "Bearer " token)

abbrev items_of : List Value → Items
items_of [] = no_items
items_of (v ∷ vs) = item v (items_of vs)

module _ (control_plane_url : String) where
  -- The URL with the path `path` behind the base.
  abbrev url_of : String → String
  url_of path = String.◌++◌ (base_url control_plane_url) path

  -- `enroll`
  abbrev enroll_request : String → String → String → Outgoing
  enroll_request bootstrap_token edge_pod_id cluster_fingerprint = record {
    url = url_of "/api/v1/edge/enroll/";
    authorization = none;
    body = some (
        dict (
          entry "bootstrap_token" (str bootstrap_token) (
            entry "edge_pod_id" (str edge_pod_id)
              (entry "cluster_fingerprint" (str cluster_fingerprint) no_entries))));
  }

  -- `rotate`
  abbrev rotate_request : String → Outgoing
  rotate_request token = record {
    url = url_of "/api/v1/edge/rotate/";
    authorization = bearer token;
    body = some (dict no_entries);
  }

  -- `heartbeat`, whose caller leaves both counts at their default
  abbrev heartbeat_request : String → Outgoing
  heartbeat_request token = record {
    url = url_of "/api/v1/edge/heartbeat/";
    authorization = bearer token;
    body = some (
        dict
          (entry "in_flight_count" (int (pos 0)) (entry "queue_depth" (int (pos 0)) no_entries)));
  }

  -- `_http_get`
  abbrev get_request : String → String → Outgoing
  get_request path token = record { url = url_of path; authorization = bearer token; body = none }

  -- `_SINGULAR_PATH` and `_PLURAL_PATH`
  abbrev singular_path : String
  singular_path = "/api/v1/edge/policy/current/"

  abbrev plural_path : String
  plural_path = "/api/v1/edge/policies/active/"

  -- The request of `_tick`
  abbrev telemetry_request : String → List Value → Outgoing
  telemetry_request token events = record {
    url = url_of "/api/v1/edge/telemetry/";
    authorization = bearer token;
    body = some (dict (entry "events" (list (items_of events)) no_entries));
  }

  unfoldable pub request_of : Request → Outgoing
  request_of (enroll token pod fingerprint) = enroll_request token pod fingerprint
  request_of (rotate token) = rotate_request token
  request_of (heartbeat token) = heartbeat_request token
  request_of (fetch_singular token) = get_request singular_path token
  request_of (fetch_plural token) = get_request plural_path token
  request_of (post_events token events) = telemetry_request token events
