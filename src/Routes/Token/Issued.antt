-- ===== src/Routes/Token/Issued.antt =====
-- To whom `issue_token` of src/edge/routes/oauth.py gives a token.
use Prim.Native.Nat.{ℕ}
use Prim.Native.String
use Prim.Native.String.{String}
use mathlib.Core.Path.{◌≡◌, refl, subst}
use mathlib.Core.Logic.{inl, inr}
use mathlib.Core.Bool.{Bool, true, false, not, ◌&&◌}
use mathlib.Core.Option.{Option, none, some}
use mathlib.Core.List.{List, Memᴰ}
use text.Mathlib.Text.{◌==◌}
use trustmodel_edge.Prelude.Tests.{Bool-cases}
use trustmodel_edge.Prelude.Lists.{All, All-filter, is_empty, filter_sound}
use trustmodel_edge.Prelude.Text.{words, join}
use trustmodel_edge.Prelude.Words.{words-IsWord, words-join}
use trustmodel_edge.Config.{Settings}
use trustmodel_edge.Policy.Bundle.{AuthorizedClient}
use trustmodel_edge.Oauth.Clients.{found-Memᴰ}
use trustmodel_edge.Policy.Cache.{PolicyCache, is_warm, authorized_clients}
use trustmodel_edge.Engine.Compiler.{contains}
use trustmodel_edge.Oauth.{
  Crypto, Authenticated, authentic, invalid_client, auth_raised, find_authorized_client,
  authenticate_found, authenticate_client, narrow_scopes, mint_agent_token, minted,
  verify_django_pbkdf2,
}
use trustmodel_edge.Routes.{
  Outcome, replied, replied-eq, AppState, Keys, keys, enrollment_missing, keys_raised, key_state,
}
use trustmodel_edge.Routes.Token.{
  TokenForm, TokenResponse, token_response, with_keys, grant, issue_token,
}

option-eq {ℓ} : {A : Type ℓ} {a b : A} → some a ≡ some b → a ≡ b
option-eq h = cc

authentic-eq : {a b : AuthorizedClient} → authentic a ≡ authentic b → a ≡ b
authentic-eq h = cc

module _ (crypto : Crypto) (cfg : Settings) (cache : PolicyCache) (now : ℕ) (missing : String)
    (key_file : Option String) where
  -- The client is on the list of the primary policy under that id, and its secret verifies.
  abbrev pub IsAuthentic : TokenForm → AuthorizedClient → Type 0
  IsAuthentic form client =
      Memᴰ client (authorized_clients cache)
      × (client.client_id ≡ form.client_id)
      × (verify_django_pbkdf2 crypto form.client_secret client.client_secret_hash ≡ some true)

  abbrev pub granted_to : TokenForm → AuthorizedClient → List String
  granted_to form client = narrow_scopes (words form.scope) client.allowed_scopes

  verified_by :
      (form : TokenForm) (client c : AuthorizedClient) (v : Option Bool)
      → find_authorized_client form.client_id (authorized_clients cache) ≡ some c
      → verify_django_pbkdf2 crypto form.client_secret c.client_secret_hash ≡ v
      → authenticate_found crypto form.client_secret c ≡ authentic client
      → IsAuthentic form client
  unfolding authenticate_found
  verified_by form client c none e f h = absurd (cc (rw (f, authenticate_found) at h))
  verified_by form client c (some false) e f h = absurd (cc (rw (f, authenticate_found) at h))
  verified_by form client c (some true) e f h =
      let (member, named) = found-Memᴰ form.client_id (authorized_clients cache) c e in
      subst (IsAuthentic form) (authentic-eq (rw (f, authenticate_found) at h)) (member, named, f)

  found_by :
      (form : TokenForm) (client : AuthorizedClient) (found : Option AuthorizedClient)
      → find_authorized_client form.client_id (authorized_clients cache) ≡ found
      → authenticate_client crypto form.client_id form.client_secret (authorized_clients cache)
        ≡ authentic client
      → IsAuthentic form client
  unfolding authenticate_client
  found_by form client none e h = absurd (cc (rw (e, authenticate_client) at h))
  found_by form client (some c) e h =
      verified_by form client c _ e refl (rw (e, authenticate_client) at h)

  -- What the response says of a client, and that the call signed it with the private key that
  -- `_key_state` gave and left `app.state` as that did.
  abbrev pub IsFor : AppState → AppState → TokenForm → TokenResponse → AuthorizedClient → Type 0
  IsFor state after form r client =
      IsAuthentic form client
      × (words r.scope ≡ granted_to form client)
      × All (λ s. contains s client.allowed_scopes ≡ true) (words r.scope)
      × (pair : String × String) × (key_state crypto missing key_file state ≡ (after, keys pair))
      × (r.access_token
          ≡ crypto.encode pair.0 (
              minted now client.client_id client.agent_id (words r.scope)
                cfg.oauth_token_ttl_seconds (String.◌++◌ "edge:" cfg.tenant_id)))

  pub words-granted :
      (form : TokenForm) (client : AuthorizedClient)
      → words (join " " (granted_to form client)) ≡ granted_to form client
  unfolding narrow_scopes
  words-granted form client =
      words-join (granted_to form client)
        (All-filter _ _ (words form.scope) (words-IsWord form.scope))

  response-IsFor :
      (state after : AppState) (form : TokenForm) (client : AuthorizedClient)
      (pair : String × String)
      → IsAuthentic form client
      → key_state crypto missing key_file state ≡ (after, keys pair)
      → IsFor state after form
          (token_response crypto cfg cache now missing key_file client
            (granted_to form client)
            pair.0)
          client
  unfolding token_response mint_agent_token narrow_scopes
  response-IsFor state after form client pair h read = rw (words-granted form client) (
    h,
    refl,
    filter_sound (λ s. contains s client.allowed_scopes) (words form.scope),
    pair,
    read,
    refl,
  )

  keyed_by :
      (state after : AppState) (form : TokenForm) (r : TokenResponse) (client : AuthorizedClient)
      (k : Keys (String × String))
      → IsAuthentic form client
      → key_state crypto missing key_file state ≡ (after, k)
      → with_keys crypto cfg cache now missing key_file client (granted_to form client) k
        ≡ replied r
      → IsFor state after form r client
  keyed_by state after form r client (keys pair) h read e =
      subst (λ r'. IsFor state after form r' client) (replied-eq e)
        (response-IsFor state after form client pair h read)
  keyed_by state after form r client (enrollment_missing error) h read e = absurd (cc)
  keyed_by state after form r client keys_raised h read e = absurd (cc)

  grant-IsFor :
      (form : TokenForm) (r : TokenResponse) (client : AuthorizedClient) (state : AppState)
      → IsAuthentic form client
      → (grant crypto cfg cache now missing key_file form client state).1 ≡ replied r
      → IsFor state (grant crypto cfg cache now missing key_file form client state).0 form r client
  unfolding grant
  grant-IsFor form r client state h e =
      elim (Bool-cases (not (is_empty (words form.scope)) && is_empty (granted_to form client))) [
        | inl f ↦ absurd (cc (rw (f, grant) at e))
        | inr f ↦ rw (f, grant) (keyed_by state _ form r client _ h refl (rw (f, grant) at e))
      ]

  module _ (form : TokenForm) (r : TokenResponse) (state : AppState) where
    abbrev issued : AppState × Outcome TokenResponse
    issued = issue_token crypto cfg cache now missing key_file form state

    authenticated_by :
        (a : Authenticated)
        → authenticate_client crypto form.client_id form.client_secret (authorized_clients cache)
          ≡ a
        → not (form.grant_type == "client_credentials") ≡ false
        → not (is_warm cache) ≡ false
        → issued.1 ≡ replied r
        → (client : AuthorizedClient) × IsFor state issued.0 form r client
    unfolding issue_token
    authenticated_by (authentic client) e f g h = (
      client,
      rw (f, g, e, issue_token)
          (grant-IsFor form r client state (found_by form client _ refl e)
            (rw (f, g, e, issue_token) at h)),
    )
    authenticated_by (invalid_client error) e f g h = absurd (cc (rw (f, g, e, issue_token) at h))
    authenticated_by auth_raised e f g h = absurd (cc (rw (f, g, e, issue_token) at h))

    -- A token is given only to a client on the list of the primary policy under the given id, for a
    -- secret that its hash verifies. Its scopes are those requested ones that the client is allowed, in
    -- the requested order, both in the response and in the signed claims, which carry the client's id
    -- and agent and expire after the configured time. They are signed with the private key
    -- that `_key_state` gives, and `app.state` is left as that leaves it.
    pub issue_token-IsFor :
        issued.1 ≡ replied r → (client : AuthorizedClient) × IsFor state issued.0 form r client
    unfolding issue_token
    issue_token-IsFor h = elim (Bool-cases (not (form.grant_type == "client_credentials"))) [
      | inl f ↦ absurd (cc (rw (f, issue_token) at h))
      | inr f ↦ elim (Bool-cases (not (is_warm cache))) [
        | inl g ↦ absurd (cc (rw (f, g, issue_token) at h))
        | inr g ↦ authenticated_by _ refl f g h
      ]
    ]
