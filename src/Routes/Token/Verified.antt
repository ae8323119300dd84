-- ===== src/Routes/Token/Verified.antt =====
-- What `decide` reads from a token that `issue_token` of src/edge/routes/oauth.py gave.
use Prim.Native.Nat.{ℕ, ◌+◌, ◌≤◌, ◌<◌}
use Prim.Native.String
use Prim.Native.String.{String}
use mathlib.Core.Path.{◌≡◌}
use mathlib.Core.Option.{Option, some}
use mathlib.Core.List.{List, Memᴰ}
use trustmodel_edge.Prelude.Text.{words}
use trustmodel_edge.Config.{Settings}
use trustmodel_edge.Policy.Bundle.{AuthorizedClient}
use trustmodel_edge.Policy.Cache.{PolicyCache, authorized_clients}
use trustmodel_edge.Oauth.{
  Crypto, minted, AgentTokenClaims, decoded, verified, verify_agent_token, claims_of, TokenPayload,
}
use trustmodel_edge.Routes.{replied, AppState, keys, public_key}
use trustmodel_edge.Routes.Token.{TokenForm, TokenResponse, issue_token}
use trustmodel_edge.Routes.Token.Issued.{IsAuthentic, granted_to, words-granted, issue_token-IsFor}
use trustmodel_edge.Routes.Token.Paired.{IsPaired, Kept-IsPaired, key_state-Kept, public_key-Kept}

module _ (crypto : Crypto) (cfg : Settings) (cache : PolicyCache) (now : ℕ) (missing : String)
    (key_file : Option String) where
  -- The claims that are signed for a client.
  abbrev payload_for : AuthorizedClient → List String → TokenPayload
  payload_for client scopes =
      minted now client.client_id client.agent_id scopes cfg.oauth_token_ttl_seconds
        (String.◌++◌ "edge:" cfg.tenant_id)

  -- From its time `now` on until it expires, the JWT library reads back at the time `unix`, under the
  -- public key that belongs to the private key, what was signed for a client of the list.
  abbrev pub ReadsBack : ℕ → Type 0
  ReadsBack unix =
      (p q : String) (client : AuthorizedClient) (scopes : List String)
      → crypto.public_key_of p ≡ some q
      → Memᴰ client (authorized_clients cache)
      → now ≤ unix
      → unix < now + cfg.oauth_token_ttl_seconds
      → crypto.decode unix q (crypto.encode p (payload_for client scopes))
        ≡ decoded (payload_for client scopes)

  module _ (form : TokenForm) (r : TokenResponse) (state : AppState)
      (paired : IsPaired crypto state)
      (issued : (issue_token crypto cfg cache now missing key_file form state).1 ≡ replied r)
      (unix : ℕ) (reads_back : ReadsBack unix) (from_now : now ≤ unix)
      (unexpired : unix < now + cfg.oauth_token_ttl_seconds) where
    abbrev after : AppState
    after = (issue_token crypto cfg cache now missing key_file form state).0

    abbrev granted : AuthorizedClient → List String
    granted client = granted_to crypto cfg cache now missing key_file form client

    -- The claims of a client.
    abbrev pub claims_for : AuthorizedClient → AgentTokenClaims
    claims_for client = record {
      sub = form.client_id;
      agent_id = client.agent_id;
      scopes = granted client;
      exp = now + cfg.oauth_token_ttl_seconds;
      iat = now;
    }

    reads_for :
        (client : AuthorizedClient) (p q : String)
        → IsAuthentic crypto cfg cache now missing key_file form client
        → crypto.public_key_of p ≡ some q
        → words r.scope ≡ granted client
        → r.access_token ≡ crypto.encode p (payload_for client (words r.scope))
        → verify_agent_token crypto unix r.access_token q ≡ verified (claims_for client)
    unfolding verify_agent_token claims_of minted
    reads_for client p q valid pair same token = rw (
      token,
      same,
      reads_back p q client (granted client) pair valid.0 from_now unexpired,
      verify_agent_token,
      words-granted crypto cfg cache now missing key_file form client,
      valid.1,
    )

    -- A token that `issue_token` gave verifies in `decide` to the claims of that client, with the
    -- requested scopes that it is allowed: under the public key that the decisions then take from
    -- `app.state`, whatever key file is there by then, and at any time until the token expires. This is
    -- so if the JWT library reads back what was signed, under the public key of the private key, until
    -- it expires, and if a pair of keys that is on `app.state` before belongs together; so it does
    -- afterwards.
    pub verify_agent_token-issue_token :
        (missing' : String) (key_file' : Option String)
        → (client : AuthorizedClient) × (key : String) × IsAuthentic crypto cfg cache now missing
            key_file form client
          × ((public_key crypto missing' key_file' after).1 ≡ keys key)
          × (verify_agent_token crypto unix r.access_token key ≡ verified (claims_for client))
          × IsPaired crypto after
    verify_agent_token-issue_token missing' key_file' =
        let (client, (valid, same, allowed, pair, read, token)) =
          issue_token-IsFor crypto cfg cache now missing key_file form r state issued in
        let kept = key_state-Kept crypto missing key_file state after pair.0 pair.1 paired read in
        (
          client,
          pair.1,
          valid,
          public_key-Kept crypto missing' key_file' after pair.0 pair.1 kept,
          reads_for client pair.0 pair.1 valid kept.2 same token,
          Kept-IsPaired crypto after pair.0 pair.1 kept,
        )
