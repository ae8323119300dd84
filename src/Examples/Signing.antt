-- ===== src/Examples/Signing.antt =====
-- A token of the token endpoint (src/edge/routes/oauth.py), signed with a private key and verified
-- with its public key.
use Prim.Native.Char.{code}
use Prim.Native.String.{String}
use Prim.Native.Nat.{◌+◌, ◌<◌}
use mathlib.Core.Path.{◌≡◌, refl, sym}
use mathlib.Core.Logic.{inl, inr}
use mathlib.Core.Bool.{true}
use mathlib.Core.Option.{none, some}
use mathlib.Core.List.{[], ◌∷◌, Memᴰ}
use native.Mathlib.Omega.{arith}
use text.Mathlib.Text.{◌==◌}
use trustmodel_edge.Prelude.Tests.{Bool-cases, nat_eq, if◌then◌else◌, or_else}
use trustmodel_edge.Policy.Bundle.{AuthorizedClient}
use trustmodel_edge.Policy.Cache.{authorized_clients, replaced}
use trustmodel_edge.Config.{default_settings}
use trustmodel_edge.Oauth.{Crypto, Decoded, refused, decoded, minted, verified, verify_agent_token}
use trustmodel_edge.Routes.{AppState, keys, public_key, replied}
use trustmodel_edge.Routes.Token.{TokenResponse, issue_token}
use trustmodel_edge.Routes.Token.Issued.{IsAuthentic}
use trustmodel_edge.Routes.Token.Paired.{IsPaired}
use trustmodel_edge.Routes.Token.Verified.{ReadsBack, claims_for, verify_agent_token-issue_token}
use trustmodel_edge.Examples.Caching.{agent}
use trustmodel_edge.Examples.Serving.{crypto, cfg, cache, form}

abbrev claimed : String → Decoded
claimed scope = decoded (record {
  iss = "edge:acme";
  sub = "agent-1";
  agent_id = some "a1";
  scope = some scope;
  iat = 100;
  exp = 3700;
})

abbrev checked : String → Decoded
checked String.[] = refused "Not enough segments"
checked (String.◌∷◌ c scope) =
    if nat_eq (code c) b'+' then claimed scope else refused "Signature verification failed"

-- A token signed with the key "private" begins with "+", any other with "-".
abbrev signing : Crypto
signing = record crypto {
  encode = λ key payload.
      if key == "private"
      then String.◌∷◌ "+" (or_else payload.scope "")
      else String.◌∷◌ "-" (or_else payload.scope "");
  decode = λ unix key token. if key == "public" then checked token else refused "no such key";
  public_key_of = λ key. if key == "private" then some "public" else none;
}

some-eq : {a b : String} → some a ≡ some b → a ≡ b
some-eq h = cc

-- No key has been read yet.
abbrev no_keys : AppState
no_keys = record { private_key = none; public_key = none }

abbrev signed : TokenResponse
signed = record {
  access_token = "+govern:enforce";
  token_type = "Bearer";
  expires_in = 3600;
  scope = "govern:enforce";
}

signed_issued :
    (issue_token signing cfg cache 100 "missing" (some "private") form no_keys).1 ≡ replied signed
unfolding issue_token default_settings replaced
signed_issued = refl

one_client : authorized_clients cache ≡ agent ∷ []
unfolding authorized_clients replaced
one_client = refl

only_agent : (client : AuthorizedClient) → Memᴰ client (agent ∷ []) → client ≡ agent
only_agent client (Memᴰ.head e) = e
only_agent client (Memᴰ.tail later) = elim later [ ]

no_keys-IsPaired : IsPaired signing no_keys
no_keys-IsPaired p q h k = absurd (cc)

pair_of :
    (p q : String) → signing.public_key_of p ≡ some q → ((p == "private") ≡ true) × (q ≡ "public")
pair_of p q h = elim (Bool-cases (p == "private")) [
  | inl e ↦ (e, some-eq (sym (rw e at h)))
  | inr e ↦ absurd (cc (rw e at h))
]

reads_back : ReadsBack signing cfg cache 100 "missing" (some "private") 200
unfolding minted default_settings
reads_back p q client scopes pair m from_now unexpired =
    let (private, public) = pair_of p q pair in
    rw (private, public, only_agent client (rw one_client at m)) refl

in_time : 200 < 100 + cfg.oauth_token_ttl_seconds
unfolding default_settings
in_time = omega arith

verify_agent_token-issue_token_example :
    (client : AuthorizedClient) × (key : String) × IsAuthentic signing cfg cache 100 "missing"
      (some "private")
      form
      client
    × ((public_key signing "missing" none
          (issue_token signing cfg cache 100 "missing" (some "private") form no_keys).0).1
        ≡ keys key)
    × (verify_agent_token signing 200 signed.access_token key
        ≡ verified (
            claims_for signing cfg cache 100 "missing"
              (some "private")
              form
              signed
              no_keys
              no_keys-IsPaired
              signed_issued
              200
              reads_back
              (omega arith)
              in_time
              client))
    × IsPaired signing (issue_token signing cfg cache 100 "missing" (some "private") form no_keys).0
verify_agent_token-issue_token_example =
    verify_agent_token-issue_token signing cfg cache 100 "missing" (some "private") form signed
      no_keys no_keys-IsPaired signed_issued 200 reads_back (omega arith) in_time "missing" none
