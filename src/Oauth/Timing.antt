-- ===== src/Oauth/Timing.antt =====
-- The time that `authenticate_client` of src/edge/oauth.py takes, told by its calls of `pbkdf2_hmac`: the
-- same code again, with the rounds of each call beside the result.
use Prim.Native.String
use Prim.Native.String.{String}
use mathlib.Core.Path.{◌≡◌, refl, sym, ap, ◌∙◌}
use mathlib.Core.Bool.{Bool, true, false}
use mathlib.Core.Option.{Option, none, some}
use mathlib.Core.List.{List, [], ◌∷◌}
use text.Mathlib.Text.{◌==◌}
use text.Mathlib.TextLemmas.{cons-append, nil-append, append_assoc}
use trustmodel_edge.Prelude.Tests.{if◌then◌else◌, or_else}
use trustmodel_edge.Prelude.Int.{ℤ, pos}
use trustmodel_edge.Prelude.Lists.{All, All-Memᴰ}
use trustmodel_edge.Prelude.Text.{strip}
use trustmodel_edge.Policy.Bundle.{AuthorizedClient}
use trustmodel_edge.Oauth.{
  Crypto, EncodedHash, int_of, split_hash, compare_digest, verify_parts, verify_django_pbkdf2,
  find_authorized_client, Authenticated, authentic, invalid_client, auth_raised, authenticate_found,
  authenticate_client,
}
use trustmodel_edge.Oauth.Clients.{found-Memᴰ}
use trustmodel_edge.Oauth.Hash.{encoded, with_dollar, split_hash-encoded}

-- The rounds of the calls of `pbkdf2_hmac`, and the result.
abbrev Traced : Type 0 → Type 0
Traced A = List ℤ × A

abbrev traced_parts : Crypto → String → EncodedHash → Traced (Option Bool)
traced_parts crypto secret parts =
    if parts.algorithm == "pbkdf2_sha256"
    then elim (int_of crypto.decimal parts.iterations) [
      | none ↦ ([], some false)
      | some iterations ↦ (
        iterations ∷ [],
        elim (crypto.pbkdf2 secret parts.salt iterations) [
          | none ↦ none
          | some derived ↦ compare_digest (strip derived) (strip parts.expected)
        ],
      )
    ]
    else ([], some false)

-- `verify_django_pbkdf2`
unfoldable traced_verify : Crypto → String → String → Traced (Option Bool)
unfolding split_hash
traced_verify crypto secret encoded_hash = elim (split_hash encoded_hash) [
  | none ↦ ([], some false)
  | some parts ↦ traced_parts crypto secret parts
]

abbrev pub sentinel_salt : String
sentinel_salt = "edge-sentinel-salt-not-used-for-real-secrets"

-- `_SENTINEL_HASH`
abbrev sentinel_hash : Crypto → String
sentinel_hash crypto =
    String.◌++◌ "pbkdf2_sha256$600000$edge-sentinel-salt-not-used-for-real-secrets$"
      (or_else (crypto.pbkdf2 "sentinel-never-matches" sentinel_salt (pos 600000)) "")

abbrev found_result : AuthorizedClient → Option Bool → Authenticated
found_result client none = auth_raised
found_result client (some true) = authentic client
found_result client (some false) = invalid_client "invalid client_secret"

-- The result of `_sentinel_verify` is dropped, but an exception in it is passed on.
abbrev unknown_result : Option Bool → Authenticated
unknown_result none = auth_raised
unknown_result (some matches) = invalid_client "unknown client_id"

abbrev with_result : (Option Bool → Authenticated) → Traced (Option Bool) → Traced Authenticated
with_result f (rounds, result) = (rounds, f result)

-- `authenticate_client`
pub traced_authenticate : Crypto → String → String → List AuthorizedClient → Traced Authenticated
unfolding traced_verify find_authorized_client
traced_authenticate crypto client_id client_secret authorized =
    elim (find_authorized_client client_id authorized) [
      | none ↦
          with_result unknown_result (traced_verify crypto client_secret (sentinel_hash crypto))
      | some client ↦
          with_result (found_result client)
            (traced_verify crypto client_secret client.client_secret_hash)
    ]

with_dollar-append : (a s : String) → with_dollar a s ≡ String.◌++◌ (String.◌++◌ a "$") s
with_dollar-append a s =
    ap (String.◌++◌ a) (sym (cons-append "$" "" s ∙ ap (String.◌∷◌ "$") (nil-append s)))
    ∙ sym (append_assoc a "$" s)

encoded-append :
    (iterations salt derived : String)
    → encoded iterations salt derived
      ≡ String.◌++◌
          (String.◌++◌
            (String.◌++◌ "pbkdf2_sha256$" (String.◌++◌ iterations "$"))
            (String.◌++◌ salt "$"))
          derived
encoded-append iterations salt derived =
    with_dollar-append "pbkdf2_sha256" _
    ∙ ap (String.◌++◌ "pbkdf2_sha256$") (with_dollar-append iterations _)
    ∙ sym (append_assoc "pbkdf2_sha256$" (String.◌++◌ iterations "$") _)
    ∙ ap (String.◌++◌ (String.◌++◌ "pbkdf2_sha256$" (String.◌++◌ iterations "$")))
        (with_dollar-append salt derived)
    ∙ sym (append_assoc _ (String.◌++◌ salt "$") derived)

-- A hash that `int` and PBKDF2 find in Django's format, of the rounds of the sentinel.
abbrev pub IsDjango : Crypto → String → Type 0
IsDjango crypto encoded_hash =
    (parts : EncodedHash) × (split_hash encoded_hash ≡ some parts)
    × (parts.algorithm ≡ "pbkdf2_sha256")
    × (int_of crypto.decimal parts.iterations ≡ some (pos 600000))

sentinel_hash-IsDjango :
    (crypto : Crypto)
    → int_of crypto.decimal "600000" ≡ some (pos 600000)
    → IsDjango crypto (sentinel_hash crypto)
sentinel_hash-IsDjango crypto number =
    let derived = or_else (crypto.pbkdf2 "sentinel-never-matches" sentinel_salt (pos 600000)) "" in
    (
      _,
      ap split_hash (sym (encoded-append "600000" sentinel_salt derived))
          ∙ split_hash-encoded "600000" sentinel_salt derived refl refl,
      refl,
      number,
    )

-- One call with the rounds of the sentinel, and the result of the code without the calls.
traced_verify-IsDjango :
    (crypto : Crypto) (secret encoded_hash : String)
    → IsDjango crypto encoded_hash
    → traced_verify crypto secret encoded_hash
      ≡ (pos 600000 ∷ [], verify_django_pbkdf2 crypto secret encoded_hash)
unfolding traced_verify verify_django_pbkdf2 verify_parts
traced_verify-IsDjango crypto secret encoded_hash (parts, splits, algorithm, number) =
    rw (splits, algorithm, number, traced_verify, verify_django_pbkdf2, verify_parts) refl

-- The verification against the sentinel, whose result is dropped, does not raise.
abbrev pub Derives : Crypto → String → Type 0
Derives crypto secret =
    (matches : Bool) × (verify_django_pbkdf2 crypto secret (sentinel_hash crypto) ≡ some matches)

module _ (crypto : Crypto) (secret : String)
    (number : int_of crypto.decimal "600000" ≡ some (pos 600000)) where
  abbrev OneCall : String → List AuthorizedClient → Type 0
  OneCall client_id authorized =
      traced_authenticate crypto client_id secret authorized
      ≡ (pos 600000 ∷ [], authenticate_client crypto client_id secret authorized)

  found_by :
      (client : AuthorizedClient) (result : Option Bool)
      → verify_django_pbkdf2 crypto secret client.client_secret_hash ≡ result
      → found_result client result ≡ authenticate_found crypto secret client
  unfolding authenticate_found
  found_by client none e = rw (e, authenticate_found) refl
  found_by client (some true) e = rw (e, authenticate_found) refl
  found_by client (some false) e = rw (e, authenticate_found) refl

  called_by :
      (client_id : String) (authorized : List AuthorizedClient) (found : Option AuthorizedClient)
      → find_authorized_client client_id authorized ≡ found
      → All (λ c. IsDjango crypto c.client_secret_hash) authorized
      → Derives crypto secret
      → OneCall client_id authorized
  unfolding traced_authenticate authenticate_client
  called_by client_id authorized none e django (matches, derives) =
      rw (e, traced_authenticate, authenticate_client)
        (rw
          (
            traced_verify-IsDjango crypto secret (sentinel_hash crypto)
                (sentinel_hash-IsDjango crypto number),
            derives,
          )
          refl)
  called_by client_id authorized (some client) e django derives =
      rw (e, traced_authenticate, authenticate_client)
        (ap (with_result (found_result client)) (
            traced_verify-IsDjango crypto secret client.client_secret_hash (
              All-Memᴰ (λ c. IsDjango crypto c.client_secret_hash)
                (found-Memᴰ client_id authorized client e).0 django))
          ∙ ap (λ r. (pos 600000 ∷ [], r)) (found_by client _ refl))

  -- With clients whose stored hashes are in Django's format with 600,000 rounds, as the sentinel's is,
  -- and where verifying the secret against the sentinel does not raise: a request for a token makes just
  -- one call of PBKDF2, of 600,000 rounds, whether the client is known or not and whether the secret is
  -- right or not, and otherwise the result is that of the code without the count.
  pub traced_authenticate-authenticate_client :
      (client_id : String) (authorized : List AuthorizedClient)
      → All (λ c. IsDjango crypto c.client_secret_hash) authorized
      → Derives crypto secret
      → traced_authenticate crypto client_id secret authorized
        ≡ (pos 600000 ∷ [], authenticate_client crypto client_id secret authorized)
  traced_authenticate-authenticate_client client_id authorized django derives =
      called_by client_id authorized _ refl django derives
