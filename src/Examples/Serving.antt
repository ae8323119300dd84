-- ===== src/Examples/Serving.antt =====
-- The token endpoint and the decisions (src/edge/oauth.py and src/edge/routes) with one agent.
use Prim.Native.Nat.{ℕ, ◌-◌}
use Prim.Native.Char.{Char, code}
use mathlib.Core.Path.{◌≡◌, refl}
use mathlib.Core.Bool.{true, false, ◌&&◌}
use mathlib.Core.Option.{Option, none, some}
use mathlib.Core.List.{[], ◌∷◌}
use text.Mathlib.Text.{◌==◌}
use trustmodel_edge.Prelude.Tests.{leb, if◌then◌else◌, or_else}
use trustmodel_edge.Prelude.Int.{pos}
use trustmodel_edge.Prelude.Text.{strip, join}
use trustmodel_edge.Value.{str}
use trustmodel_edge.Config.{Settings, default_settings, subject_id_mode}
use trustmodel_edge.Policy.Bundle.{AuthorizedClient}
use trustmodel_edge.Policy.Cache.{PolicyCache, compile, replaced}
use trustmodel_edge.Telemetry.Store.{fresh, durable}
use trustmodel_edge.Oauth.{
  Crypto, decoded, AgentTokenClaims, int_of, verify_django_pbkdf2, is_ascii,
}
use trustmodel_edge.Oauth.Hash.{encoded, verify_django_pbkdf2-encoded}
use trustmodel_edge.Routes.{AppState, replied}
use trustmodel_edge.Routes.Token.{TokenForm, TokenResponse, issue_token}
use trustmodel_edge.Routes.Token.Issued.{IsFor, issue_token-IsFor}
use trustmodel_edge.Routes.Decide.{
  DecideRequest, DecideResponse, Edge, Services, or_text, decide_routed, audit_event, decide,
}
use trustmodel_edge.Routes.Bearer.{Moment, require_agent_token}
use trustmodel_edge.Routes.Decide.Guarded.{IsAuthorized, decide-IsAuthorized}
use trustmodel_edge.Routes.Decide.Answered.{Answered, decide-Answered}
use trustmodel_edge.Engine.Evaluator.{default_deny}
use trustmodel_edge.Routes.Decide.Subject.{subject_under, audit_event-subject_id_mode}
use trustmodel_edge.Routes.Decide.Private.{IsSealed, decide-IsSealed}
use trustmodel_edge.Examples.Evaluation.{py}
use trustmodel_edge.Examples.Caching.{main}

abbrev ascii_digit : Char → Option ℕ
ascii_digit c = if leb 48 (code c) && leb (code c) 57 then some (code c - 48) else none

-- A token is the text of its scopes.
abbrev pub crypto : Crypto
crypto = record {
  decimal = ascii_digit;
  pbkdf2 = λ secret salt rounds. some secret;
  encode = λ key payload. or_else payload.scope "";
  decode = λ now key token. decoded (record {
    iss = "edge:acme";
    sub = "agent-1";
    agent_id = some "a1";
    scope = some token;
    iat = 100;
    exp = 3700;
  });
  public_key_of = λ key. some "public";
}

abbrev pub cfg : Settings
cfg = default_settings "acme"

abbrev pub cache : PolicyCache
cache = replaced py 4000000 main

abbrev pub form : TokenForm
form = record {
  grant_type = "client_credentials";
  client_id = "agent-1";
  client_secret = "s3cret";
  scope = "write govern:enforce";
}

abbrev keyed : AppState
keyed = record { private_key = some "private"; public_key = some "public" }

abbrev token : TokenResponse
token = record {
  access_token = "govern:enforce";
  token_type = "Bearer";
  expires_in = 3600;
  scope = "govern:enforce";
}

token_issued : (issue_token crypto cfg cache 100 "missing" none form keyed).1 ≡ replied token
unfolding issue_token default_settings replaced
token_issued = refl

issue_token-IsFor_example :
    (client : AuthorizedClient) × IsFor crypto cfg cache 100 "missing" none keyed
      (issue_token crypto cfg cache 100 "missing" none form keyed).0
      form
      token
      client
issue_token-IsFor_example =
    issue_token-IsFor crypto cfg cache 100 "missing" none form token keyed token_issued

five : int_of ascii_digit "5" ≡ some (pos 5)
unfolding int_of
five = refl

ascii : is_ascii (strip "s3cret") ≡ true
unfolding is_ascii strip
ascii = refl

verify_django_pbkdf2-encoded_example :
    verify_django_pbkdf2 crypto "s3cret" (encoded "5" "salt" "s3cret")
    ≡ some (strip "s3cret" == strip "s3cret")
verify_django_pbkdf2-encoded_example =
    verify_django_pbkdf2-encoded "5" "salt" "s3cret" refl refl crypto (pos 5) "s3cret" "s3cret" five
      refl ascii ascii

abbrev pub services : Services
services = record { crypto = crypto; py = py; uuid5 = λ s. s; hmac = λ key subject. "hash" }

abbrev pub moment : Moment
moment = record {
  now = 5000000;
  unix = 200;
  missing = "missing";
  key_file = none;
  elapsed = 3;
  latency = 4;
  event_id = "e1";
  occurred_at = "2026";
  enqueued_at = 5000001;
  enqueue_fails = false;
}

abbrev pub body : DecideRequest
body = record {
  tool = "delete";
  args = ("path", str "/tmp") ∷ [];
  subject = some "bob";
  subject_attrs = none;
  agent_id = none;
  policy_name = none;
}

abbrev pub edge : Edge
edge = record {
  app = keyed;
  metrics = record { decisions = []; cache_hits = 0; not_found = 0; latencies = [] };
  store = durable (fresh 100);
}

abbrev denied : DecideResponse
denied = record {
  verdict = "deny";
  rule_id = "no-delete";
  reason = "Rule no-delete fired with action deny.";
  redactions = [];
  matched_framework_tags = [];
  latency_ms = 3;
  policy_id = some "p1";
  policy_version = some "1";
  stale = false;
}

delete_answered :
    (decide services cfg cache moment body "Bearer govern:enforce" edge).1 ≡ replied denied
unfolding decide default_settings replaced join
delete_answered = refl

decide-IsAuthorized_example :
    (claims : AgentTokenClaims) × IsAuthorized crypto moment "Bearer govern:enforce" keyed claims
    × (decide services cfg cache moment body "Bearer govern:enforce" edge
        ≡ decide_routed services cfg cache moment body (or_text claims.agent_id none) (record edge {
          app = (require_agent_token crypto moment "Bearer govern:enforce" keyed).0;
        }))
decide-IsAuthorized_example =
    decide-IsAuthorized services cfg cache moment body "Bearer govern:enforce" edge denied
      delete_answered

decide-Answered_example :
    (claims : AgentTokenClaims) × IsAuthorized crypto moment "Bearer govern:enforce" keyed claims
    × Answered services cfg cache moment body
        (or_text claims.agent_id none)
        edge
        (decide services cfg cache moment body "Bearer govern:enforce" edge).0
        denied
decide-Answered_example =
    decide-Answered services cfg cache moment body "Bearer govern:enforce" edge denied
      delete_answered

pub omits : cfg.telemetry_omit_payload ≡ true
unfolding default_settings
omits = refl

decide-IsSealed_example :
    IsSealed services cfg (decide services cfg cache moment body "Bearer govern:enforce" edge).0
decide-IsSealed_example =
    decide-IsSealed services cfg cache moment body omits "Bearer govern:enforce" edge tt

audit_event-subject_id_mode_example :
    (audit_event services cfg cache moment body (compile py main) none (default_deny 3)).subject_id
    ≡ subject_under services cfg cache moment body (subject_id_mode cfg)
audit_event-subject_id_mode_example =
    audit_event-subject_id_mode services cfg cache moment body (compile py main) none
      (default_deny 3)
