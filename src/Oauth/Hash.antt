-- ===== src/Oauth/Hash.antt =====
-- Which secrets `verify_django_pbkdf2` of src/edge/oauth.py accepts.
use Prim.Native.String
use Prim.Native.String.{String}
use mathlib.Core.Path.{◌≡◌, refl}
use mathlib.Core.Bool.{true}
use mathlib.Core.Option.{some}
use text.Mathlib.Text.{◌==◌}
use trustmodel_edge.Prelude.Int.{ℤ}
use trustmodel_edge.Prelude.Text.{strip}
use trustmodel_edge.Prelude.Words.{lacks, split_once-append}
use trustmodel_edge.Oauth.{
  Crypto, int_of, split_hash, is_ascii, compare_digest, verify_parts, verify_django_pbkdf2,
}

abbrev pub with_dollar : String → String → String
with_dollar a s = String.◌++◌ a (String.◌∷◌ "$" s)

-- Django's text of a hash.
abbrev pub encoded : String → String → String → String
encoded iterations salt derived =
    with_dollar "pbkdf2_sha256" (with_dollar iterations (with_dollar salt derived))

module _ (iterations salt expected : String) (iterations_lacks : lacks 36 iterations ≡ true)
    (salt_lacks : lacks 36 salt ≡ true) where
  pub split_hash-encoded :
      split_hash (encoded iterations salt expected)
      ≡ some (record {
        algorithm = "pbkdf2_sha256";
        iterations = iterations;
        salt = salt;
        expected = expected;
      })
  unfolding split_hash
  split_hash-encoded =
      let e1 =
        split_once-append "$" "pbkdf2_sha256" (with_dollar iterations (with_dollar salt expected))
          refl in
      let e2 = split_once-append "$" iterations (with_dollar salt expected) iterations_lacks in
      let e3 = split_once-append "$" salt expected salt_lacks in
      rw (e1, e2, e3, split_hash, e1, e2, e3)

  module _ (crypto : Crypto) (rounds : ℤ) (secret derived : String) where
    -- On a hash as Django writes it, of a number of rounds that reads as `rounds`, a secret is accepted
    -- exactly if PBKDF2 with that salt and those rounds derives the stored text from it, white space at
    -- the ends aside; the two texts are ASCII.
    pub verify_django_pbkdf2-encoded :
        int_of crypto.decimal iterations ≡ some rounds
        → crypto.pbkdf2 secret salt rounds ≡ some derived
        → is_ascii (strip derived) ≡ true
        → is_ascii (strip expected) ≡ true
        → verify_django_pbkdf2 crypto secret (encoded iterations salt expected)
          ≡ some (strip derived == strip expected)
    unfolding verify_django_pbkdf2 verify_parts compare_digest
    verify_django_pbkdf2-encoded number derives a b = rw (
      split_hash-encoded, number, derives, a, b, verify_django_pbkdf2, verify_parts, compare_digest,
    )
