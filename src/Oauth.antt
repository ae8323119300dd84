-- ===== src/Oauth.antt =====
-- src/edge/oauth.py. PBKDF2, the JWT library and the derivation of the public key are arguments, and so
-- is the decimal value of a character, which the Unicode tables give.
pub mod Hash
pub mod Clients
pub mod Timing
use Prim.Native.Nat.{ℕ, ◌+◌, ◌*◌}
use Prim.Native.Char.{Char, code}
use Prim.Native.String
use Prim.Native.String.{String}
use mathlib.Core.Bool.{Bool, true, false, ◌&&◌}
use mathlib.Core.Option
use mathlib.Core.Option.{Option, none, some}
use mathlib.Core.List.{List, [], ◌∷◌}
use text.Mathlib.Text.{◌==◌}
use trustmodel_edge.Prelude.Tests.{ltb, nat_eq, if◌then◌else◌, or_else}
use trustmodel_edge.Prelude.Lists.{filter}
use trustmodel_edge.Prelude.Int.{ℤ, pos, sub_ℕ}
use trustmodel_edge.Prelude.Text.{split_once, strip, words, join}
use trustmodel_edge.Policy.Bundle.{AuthorizedClient}
use trustmodel_edge.Engine.Compiler.{contains}

-- The claims of a token. A text `scope` or none: the key signs only what `mint_agent_token` and
-- `mint_cert_jwt` write.
pub record TokenPayload : Type 0 where
  pub iss : String
  pub sub : String
  pub agent_id : Option String
  pub scope : Option String
  pub iat : ℕ
  pub exp : ℕ

-- What `jwt.decode` gives: the text of its exception, or the claims.
pub data Decoded : Type 0 where
  refused : String → Decoded
  decoded : TokenPayload → Decoded

-- `pbkdf2` takes the secret, the salt and the rounds, and gives the hash in base 64; it raises when
-- there are less than 1 or too many rounds. `encode` takes the private key, `decode` the time in
-- seconds, the public key and the token.
pub record Crypto : Type 0 where
  pub decimal : Char → Option ℕ
  pub pbkdf2 : String → String → ℤ → Option String
  pub encode : String → TokenPayload → String
  pub decode : ℕ → String → String → Decoded
  pub public_key_of : String → Option String

-- The digits of `int(s)` behind the first: an underscore stands between two digits.
unfoldable more_digits : (Char → Option ℕ) → ℕ → Bool → String → Option ℕ
more_digits decimal n after_digit String.[] = if after_digit then some n else none
more_digits decimal n after_digit (String.◌∷◌ c s) = elim (decimal c) [
  | some d ↦ more_digits decimal (n * 10 + d) true s
  | none ↦
      let skip = more_digits decimal n false s in
      if nat_eq (code c) 95 && after_digit then skip else none
]

abbrev magnitude : (Char → Option ℕ) → (ℕ → ℤ) → String → Option ℤ
magnitude decimal sign s = Option.map sign (more_digits decimal 0 false s)

abbrev negated : ℕ → ℤ
negated n = sub_ℕ 0 n

-- `int(s)`: white space around, a sign, digits. `none` is ValueError.
abbrev signed : (Char → Option ℕ) → String → Option ℤ
signed decimal String.[] = none
signed decimal (String.◌∷◌ c s) =
    if nat_eq (code c) 43
    then magnitude decimal pos s
    else if nat_eq (code c) 45
    then magnitude decimal negated s
    else magnitude decimal pos (String.◌∷◌ c s)

unfoldable pub int_of : (Char → Option ℕ) → String → Option ℤ
unfolding more_digits strip
int_of decimal s = signed decimal (strip s)

-- The code of "$".
abbrev dollar : ℕ
dollar = 36

pub record EncodedHash : Type 0 where
  pub algorithm : String
  pub iterations : String
  pub salt : String
  pub expected : String

-- `encoded_hash.split("$", 3)` into four names; `none` is ValueError.
pub split_hash : String → Option EncodedHash
unfolding split_once
split_hash s =
    let (algorithm, rest) = split_once dollar s in
    elim rest [
      | none ↦ none
      | some s' ↦
          let (iterations, rest') = split_once dollar s' in
          elim rest' [
            | none ↦ none
            | some s'' ↦
                let (salt, rest'') = split_once dollar s'' in
                elim rest'' [
                  | none ↦ none
                  | some expected ↦ some (record {
                    algorithm = algorithm;
                    iterations = iterations;
                    salt = salt;
                    expected = expected;
                  })
                ]
          ]
    ]

unfoldable pub is_ascii : String → Bool
is_ascii String.[] = true
is_ascii (String.◌∷◌ c s) = ltb (code c) 128 && is_ascii s

-- `hmac.compare_digest` on two texts; it raises when one of them is not ASCII.
pub compare_digest : String → String → Option Bool
unfolding is_ascii
compare_digest a b = if is_ascii a && is_ascii b then some (a == b) else none

-- The part of `verify_django_pbkdf2` behind the first `try`; `none` is an exception that it does not
-- catch.
pub verify_parts : Crypto → String → EncodedHash → Option Bool
unfolding int_of compare_digest strip
verify_parts crypto secret parts =
    if parts.algorithm == "pbkdf2_sha256"
    then elim (int_of crypto.decimal parts.iterations) [
      | none ↦ some false
      | some iterations ↦ elim (crypto.pbkdf2 secret parts.salt iterations) [
        | none ↦ none
        | some derived ↦ compare_digest (strip derived) (strip parts.expected)
      ]
    ]
    else some false

pub verify_django_pbkdf2 : Crypto → String → String → Option Bool
unfolding split_hash verify_parts
verify_django_pbkdf2 crypto secret encoded_hash = elim (split_hash encoded_hash) [
  | none ↦ some false
  | some parts ↦ verify_parts crypto secret parts
]

pub find_authorized_client : String → List AuthorizedClient → Option AuthorizedClient
find_authorized_client client_id [] = none
find_authorized_client client_id (ac ∷ acs) =
    let rest = find_authorized_client client_id acs in
    if ac.client_id == client_id then some ac else rest

-- The third is an exception that is no `InvalidClient`.
pub data Authenticated : Type 0 where
  authentic : AuthorizedClient → Authenticated
  invalid_client : String → Authenticated
  auth_raised : Authenticated

unfoldable pub authenticate_found : Crypto → String → AuthorizedClient → Authenticated
unfolding verify_django_pbkdf2
authenticate_found crypto secret client =
    elim (verify_django_pbkdf2 crypto secret client.client_secret_hash) [
      | none ↦ auth_raised
      | some true ↦ authentic client
      | some false ↦ invalid_client "invalid client_secret"
    ]

-- The sentinel's hash is well formed, so that verifying against it has no effect but its time.
unfoldable pub authenticate_client :
    Crypto → String → String → List AuthorizedClient → Authenticated
unfolding find_authorized_client authenticate_found
authenticate_client crypto client_id client_secret authorized =
    elim (find_authorized_client client_id authorized) [
      | none ↦ invalid_client "unknown client_id"
      | some client ↦ authenticate_found crypto client_secret client
    ]

unfoldable pub narrow_scopes : List String → List String → List String
unfolding contains
narrow_scopes requested allowed = filter (λ s. contains s allowed) requested

-- The payload of `mint_agent_token`.
unfoldable pub minted : ℕ → String → Option String → List String → ℕ → String → TokenPayload
unfolding join
minted now client_id agent_id granted_scopes ttl_seconds issuer = record {
  iss = issuer;
  sub = client_id;
  agent_id = agent_id;
  scope = some (join " " granted_scopes);
  iat = now;
  exp = now + ttl_seconds;
}

unfoldable pub mint_agent_token :
    Crypto → ℕ → String → Option String → List String → ℕ → String → String → String × ℕ
unfolding minted
mint_agent_token crypto now client_id agent_id granted_scopes ttl_seconds private_key issuer = (
  crypto.encode private_key (minted now client_id agent_id granted_scopes ttl_seconds issuer),
  ttl_seconds,
)

pub record AgentTokenClaims : Type 0 where
  pub sub : String
  pub agent_id : Option String
  pub scopes : List String
  pub exp : ℕ
  pub iat : ℕ

pub data Verified : Type 0 where
  invalid_token : String → Verified
  verified : AgentTokenClaims → Verified

unfoldable pub claims_of : TokenPayload → AgentTokenClaims
unfolding words
claims_of payload = record {
  sub = payload.sub;
  agent_id = payload.agent_id;
  scopes = words (or_else payload.scope "");
  exp = payload.exp;
  iat = payload.iat;
}

unfoldable pub verify_agent_token : Crypto → ℕ → String → String → Verified
unfolding claims_of
verify_agent_token crypto now token public_key = elim (crypto.decode now public_key token) [
  | refused error ↦ invalid_token (String.◌++◌ "jwt verification failed: " error)
  | decoded payload ↦ verified (claims_of payload)
]
