-- ===== src/Routes/Decide/Guarded.antt =====
-- Who gets an answer from `decide` of src/edge/routes/decide.py.
use Prim.Native.Nat.{ℕ}
use Prim.Native.String.{String}
use mathlib.Core.Path.{◌≡◌, refl, sym, subst}
use mathlib.Core.Logic.{inl, inr}
use mathlib.Core.Bool.{true}
use mathlib.Core.Option.{Option, none, some}
use text.Mathlib.Text.{◌==◌}
use trustmodel_edge.Prelude.Tests.{Bool-cases}
use trustmodel_edge.Config.{Settings}
use trustmodel_edge.Policy.Cache.{PolicyCache}
use trustmodel_edge.Engine.Compiler.{contains}
use trustmodel_edge.Oauth.{
  Crypto, TokenPayload, Decoded, refused, decoded, AgentTokenClaims, claims_of, verify_agent_token,
}
use trustmodel_edge.Routes.{
  Outcome, replied, http_error, raised, AppState, Keys, keys, enrollment_missing, keys_raised,
  public_key,
}
use trustmodel_edge.Routes.Decide.{
  DecideRequest, DecideResponse, Edge, Services, or_text, decide_routed, decide,
}
use trustmodel_edge.Routes.Bearer.{
  Moment, govern_enforce, bearer_token, check_token, check_keyed, require_agent_token,
}

module _ (crypto : Crypto) where
  -- The token decodes under the key, to claims with the scope that `decide` asks for.
  abbrev IsGranted : ℕ → String → String → AgentTokenClaims → Type 0
  IsGranted unix token key claims =
      (payload : TokenPayload) × (crypto.decode unix key token ≡ decoded payload)
      × (claims ≡ claims_of payload)
      × (contains govern_enforce claims.scopes ≡ true)

  IsGranted-by :
      (unix : ℕ) (token key : String) (claims : AgentTokenClaims) (d : Decoded)
      → crypto.decode unix key token ≡ d
      → check_token crypto unix token key ≡ replied claims
      → IsGranted unix token key claims
  unfolding check_token verify_agent_token
  IsGranted-by unix token key claims (refused error) e h = absurd (cc (rw (e, check_token) at h))
  IsGranted-by unix token key claims (decoded payload) e h =
      elim (Bool-cases (contains govern_enforce (claims_of payload).scopes)) [
        | inl holds ↦
            let same = claims-eq (claims_of payload) claims (rw (e, holds, check_token) at h) in
            (payload, e, sym same, subst (λ c. contains govern_enforce c.scopes ≡ true) same holds)
        | inr fails ↦ absurd (cc (rw (e, fails, check_token) at h))
      ]
    where
      claims-eq : (c d : AgentTokenClaims) → replied c ≡ replied d → c ≡ d
      claims-eq c d h = cc

  module _ (at : Moment) (authorization : String) (app : AppState) where
    -- The header carries a token that decodes under the key of `app`.
    abbrev pub IsAuthorized : AgentTokenClaims → Type 0
    IsAuthorized claims =
        (token : String) × (key : String) × (bearer_token authorization ≡ some token)
        × ((public_key crypto at.missing at.key_file app).1 ≡ keys key)
        × IsGranted at.unix token key claims

    abbrev auth : AppState × Outcome AgentTokenClaims
    auth = require_agent_token crypto at authorization app

    keyed_by :
        (token : String) (claims : AgentTokenClaims) (k : Keys String)
        → bearer_token authorization ≡ some token
        → (public_key crypto at.missing at.key_file app).1 ≡ k
        → check_keyed crypto at.unix token k ≡ replied claims
        → IsAuthorized claims
    keyed_by token claims (keys key) found e h =
        (token, key, found, e, IsGranted-by at.unix token key claims _ refl h)
    keyed_by token claims (enrollment_missing error) found e h = absurd (cc)
    keyed_by token claims keys_raised found e h = absurd (cc)

    required_by :
        (claims : AgentTokenClaims) (o : Option String)
        → bearer_token authorization ≡ o
        → auth.1 ≡ replied claims
        → IsAuthorized claims
    unfolding require_agent_token
    required_by claims none e h = absurd (cc (rw (e, require_agent_token) at h))
    required_by claims (some token) e h = elim (Bool-cases (token == "")) [
      | inl empty ↦ absurd (cc (rw (e, empty, require_agent_token) at h))
      | inr full ↦ keyed_by token claims _ e refl (rw (e, full, require_agent_token) at h)
    ]

module _ (services : Services) (cfg : Settings) (cache : PolicyCache) (at : Moment)
    (body : DecideRequest) (authorization : String) (edge : Edge) (r : DecideResponse) where
  abbrev authenticated : AppState × Outcome AgentTokenClaims
  authenticated = require_agent_token services.crypto at authorization edge.app

  abbrev routed : AgentTokenClaims → Edge × Outcome DecideResponse
  routed claims =
      decide_routed services cfg cache at body (or_text claims.agent_id body.agent_id)
        (record edge { app = authenticated.0 })

  decided_by :
      (o : Outcome AgentTokenClaims)
      → authenticated.1 ≡ o
      → (decide services cfg cache at body authorization edge).1 ≡ replied r
      → (claims : AgentTokenClaims) × IsAuthorized services.crypto at authorization edge.app claims
        × (decide services cfg cache at body authorization edge ≡ routed claims)
  unfolding decide
  decided_by (replied claims) e h = (
    claims,
    required_by services.crypto at authorization edge.app claims _ refl e,
    rw (e, decide),
  )
  decided_by (http_error code detail) e h = absurd (cc (rw (e, decide) at h))
  decided_by raised e h = absurd (cc (rw (e, decide) at h))

  -- Whatever the policies and the request, `decide` answers with a verdict only if the header carries
  -- a bearer token that decodes under the key of this Edge to claims with the scope govern:enforce; and
  -- then the answer is that of the evaluation under those claims.
  pub decide-IsAuthorized :
      (decide services cfg cache at body authorization edge).1 ≡ replied r
      → (claims : AgentTokenClaims) × IsAuthorized services.crypto at authorization edge.app claims
        × (decide services cfg cache at body authorization edge ≡ routed claims)
  decide-IsAuthorized h = decided_by _ refl h
