-- ===== src/Identity/Restored.antt =====
-- What `load_credentials` of src/edge/identity.py finds after `persist_credentials`.
use Prim.Native.Char.{code}
use Prim.Native.String.{String}
use mathlib.Core.Path.{◌≡◌, refl}
use mathlib.Core.Bool.{false}
use mathlib.Core.Option.{some}
use trustmodel_edge.Prelude.Tests.{nat_eq}
use trustmodel_edge.Identity.{
  EdgeCredentials, CredentialFiles, Formats, uninterrupted, newlines_from, read_text, meta_value,
  persist_credentials, present, credentials_of, read_files, load_credentials,
}

-- The text has no carriage return.
abbrev IsPlain : String → Type 0
IsPlain String.[] = Unit {0}
IsPlain (String.◌∷◌ c s) = (nat_eq (code c) 13 ≡ false) × IsPlain s

read_text_plain : (s : String) → IsPlain s → read_text s ≡ s
unfolding read_text newlines_from
read_text_plain String.[] p = refl
read_text_plain (String.◌∷◌ c s) (p, ps) = rw (p, read_text_plain s ps, newlines_from)

-- The three PEM texts are plain.
abbrev pub ArePlain : EdgeCredentials → Type 0
ArePlain creds = IsPlain creds.cert_pem × IsPlain creds.key_pem × IsPlain creds.ca_chain_pem

module _ (formats : Formats) where
  -- json and the format of times read back what they wrote for these credentials.
  abbrev pub ReadsBack : EdgeCredentials → Type 0
  ReadsBack creds =
      (formats.loads (read_text (formats.dumps (meta_value formats creds)))
        ≡ some (meta_value formats creds))
      × (formats.fromisoformat (formats.isoformat creds.cert_valid_to) ≡ some creds.cert_valid_to)

  credentials_of-meta_value :
      (creds : EdgeCredentials) (cert_pem key_pem ca_pem : String)
      → ReadsBack creds
      → credentials_of formats cert_pem key_pem ca_pem (meta_value formats creds)
        ≡ some (record creds { cert_pem = cert_pem; key_pem = key_pem; ca_chain_pem = ca_pem })
  unfolding credentials_of
  credentials_of-meta_value creds cert_pem key_pem ca_pem (_, time) = rw time

  -- Credentials that were persisted are loaded again, whatever files were there before, if json and
  -- the format of times read back what they wrote and the PEM texts have no carriage return.
  pub load_credentials-persist_credentials :
      (files : CredentialFiles) (creds : EdgeCredentials)
      → ArePlain creds
      → ReadsBack creds
      → load_credentials formats (persist_credentials formats uninterrupted files creds).0
        ≡ present creds
  unfolding load_credentials read_files persist_credentials
  load_credentials-persist_credentials files creds (cert, key, ca) reads = rw (
    reads.0,
    read_text_plain creds.cert_pem cert,
    read_text_plain creds.key_pem key,
    read_text_plain creds.ca_chain_pem ca,
    credentials_of-meta_value creds creds.cert_pem creds.key_pem creds.ca_chain_pem reads,
  )
