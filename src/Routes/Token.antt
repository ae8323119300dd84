-- ===== src/Routes/Token.antt =====
-- src/edge/routes/oauth.py: the form of `POST /v1/oauth/token` has been parsed.
pub mod Issued
pub mod Paired
pub mod Verified
use Prim.Native.Nat.{ℕ}
use Prim.Native.String
use Prim.Native.String.{String}
use mathlib.Core.Bool.{◌&&◌, not}
use mathlib.Core.Option.{Option, none}
use mathlib.Core.List.{List}
use text.Mathlib.Text.{◌==◌}
use trustmodel_edge.Prelude.Tests.{if◌then◌else◌}
use trustmodel_edge.Prelude.Lists.{is_empty}
use trustmodel_edge.Prelude.Text.{words, join}
use trustmodel_edge.Config.{Settings}
use trustmodel_edge.Policy.Bundle.{AuthorizedClient}
use trustmodel_edge.Policy.Cache.{PolicyCache, is_warm, authorized_clients}
use trustmodel_edge.Oauth.{
  Crypto, authentic, invalid_client, auth_raised, authenticate_client, narrow_scopes,
  mint_agent_token,
}
use trustmodel_edge.Routes.{
  oauth_error, Outcome, replied, http_error, raised, AppState, Keys, keys, enrollment_missing,
  keys_raised, key_state,
}

pub record TokenForm : Type 0 where
  pub grant_type : String
  pub client_id : String
  pub client_secret : String
  pub scope : String

pub record TokenResponse : Type 0 where
  pub access_token : String
  pub token_type : String
  pub expires_in : ℕ
  pub scope : String

module _ (crypto : Crypto) (cfg : Settings) (cache : PolicyCache) (now : ℕ) (missing : String)
    (key_file : Option String) where
  -- Behind the keys: minting.
  pub token_response : AuthorizedClient → List String → String → TokenResponse
  unfolding mint_agent_token join
  token_response client granted private_key =
      let (token, expires_in) =
        mint_agent_token crypto now client.client_id client.agent_id granted
          cfg.oauth_token_ttl_seconds private_key (String.◌++◌ "edge:" cfg.tenant_id) in
      record {
        access_token = token;
        token_type = "Bearer";
        expires_in = expires_in;
        scope = join " " granted;
      }

  abbrev with_keys : AuthorizedClient → List String → Keys (String × String) → Outcome TokenResponse
  with_keys client granted (keys pair) = replied (token_response client granted pair.0)
  with_keys client granted (enrollment_missing error) =
      http_error 503 (oauth_error "service_unavailable" error)
  with_keys client granted keys_raised = raised

  -- Behind the authentication: the scopes, then the keys.
  pub grant : TokenForm → AuthorizedClient → AppState → AppState × Outcome TokenResponse
  unfolding words narrow_scopes key_state token_response
  grant form client state =
      let requested = words form.scope in
      let granted = narrow_scopes requested client.allowed_scopes in
      let (state', result) = key_state crypto missing key_file state in
      if not (is_empty requested) && is_empty granted
      then (
        state,
        http_error 400 (
            oauth_error "invalid_scope" "none of the requested scopes are allowed for this client"),
      )
      else (state', with_keys client granted result)

  unfoldable pub issue_token : TokenForm → AppState → AppState × Outcome TokenResponse
  unfolding is_warm authorized_clients authenticate_client grant
  issue_token form state =
      if not (form.grant_type == "client_credentials")
      then (
        state,
        http_error 400 (
            oauth_error "unsupported_grant_type"
              "this endpoint only supports the 'client_credentials' grant"),
      )
      else if not (is_warm cache)
      then (
        state,
        http_error 503 (
            oauth_error "service_unavailable"
              "policy cache not warm; Edge has not completed first sync"),
      )
      else elim (authenticate_client crypto form.client_id form.client_secret
          (authorized_clients cache)) [
            | invalid_client error ↦ (state, http_error 401 (oauth_error "invalid_client" error))
            | auth_raised ↦ (state, raised)
            | authentic client ↦ grant form client state
          ]
