-- ===== src/Examples/Timing.antt =====
-- The calls of PBKDF2 (src/edge/oauth.py) for a known and an unknown client.
use mathlib.Core.Path.{◌≡◌, refl}
use mathlib.Core.Bool.{true}
use mathlib.Core.Option.{some}
use mathlib.Core.List.{List, [], ◌∷◌}
use trustmodel_edge.Prelude.Int.{pos}
use trustmodel_edge.Prelude.Text.{strip}
use trustmodel_edge.Policy.Bundle.{AuthorizedClient}
use trustmodel_edge.Oauth.{Crypto, int_of, is_ascii, authenticate_client}
use trustmodel_edge.Oauth.Hash.{split_hash-encoded, verify_django_pbkdf2-encoded}
use trustmodel_edge.Oauth.Timing.{
  IsDjango, Derives, sentinel_salt, traced_authenticate, traced_authenticate-authenticate_client,
}
use trustmodel_edge.Examples.Caching.{agent}
use trustmodel_edge.Examples.Serving

-- PBKDF2 derives one text from everything.
abbrev crypto : Crypto
crypto = record Serving.crypto { pbkdf2 = λ secret salt rounds. some "AAAA" }

abbrev clients : List AuthorizedClient
clients = record agent { client_secret_hash = "pbkdf2_sha256$600000$salt$AAAA" } ∷ []

number : int_of crypto.decimal "600000" ≡ some (pos 600000)
unfolding int_of
number = refl

agent-IsDjango : IsDjango crypto "pbkdf2_sha256$600000$salt$AAAA"
agent-IsDjango = (_, split_hash-encoded "600000" "salt" "AAAA" refl refl, refl, number)

derives : Derives crypto "wrong"
unfolding int_of is_ascii strip
derives = (
  true,
  verify_django_pbkdf2-encoded "600000" sentinel_salt "AAAA" refl refl crypto (pos 600000) "wrong"
      "AAAA" number refl refl refl,
)

traced_authenticate-authenticate_client_example :
    traced_authenticate crypto "agent-2" "wrong" clients
    ≡ (pos 600000 ∷ [], authenticate_client crypto "agent-2" "wrong" clients)
traced_authenticate-authenticate_client_example =
    traced_authenticate-authenticate_client crypto "wrong" number "agent-2" clients
      (agent-IsDjango, tt) derives
