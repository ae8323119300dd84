-- ===== src/Examples/Requests.antt =====
-- A request that the app (src/edge/app.py) serves, and one that it sends.
use mathlib.Core.Path.{◌≡◌, refl}
use mathlib.Core.Bool.{false}
use mathlib.Core.Option.{some}
use mathlib.Core.List.{[]}
use trustmodel_edge.Prelude.Text.{decimal_text}
use trustmodel_edge.Config.{default_settings}
use trustmodel_edge.App.Factory.{post, issue_token, create_app, endpoint_of}
use trustmodel_edge.Outbound.{post_events, base_url, request_of}
use trustmodel_edge.Outbound.Addressed.{IsOutgoing, with_slashes, request_of-addressed}

token_endpoint_mounted :
    endpoint_of post "/mcp/oauth/token" (create_app (default_settings "acme") false).routes
    ≡ some issue_token
unfolding create_app endpoint_of
token_endpoint_mounted = refl

request_of-addressed_example :
    IsOutgoing "https://api.trustmodel.ai"
      (post_events "t" [])
      (request_of (with_slashes 2 "https://api.trustmodel.ai") (post_events "t" []))
request_of-addressed_example =
    request_of-addressed "https://api.trustmodel.ai" (post_events "t" []) 2 refl

telemetry_url :
    (request_of "https://api.trustmodel.ai//" (post_events "t" [])).url
    ≡ "https://api.trustmodel.ai/api/v1/edge/telemetry/"
unfolding request_of base_url
telemetry_url = refl

a_status : decimal_text 503 ≡ "503"
unfolding decimal_text
a_status = refl
