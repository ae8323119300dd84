-- ===== src/Identity.antt =====
-- src/edge/identity.py. Times are microseconds since the epoch; json, the formats of times and the JWT
-- library are arguments. meta.json holds texts, as it is written.
pub mod Restored
pub mod Interrupted
use Prim.Native.Nat.{ℕ, ◌+◌, ◌*◌, ◌/◌}
use Prim.Native.Char.{code}
use Prim.Native.String
use Prim.Native.String.{String}
use mathlib.Core.Bool.{Bool, true, false, ◌&&◌}
use mathlib.Core.Option
use mathlib.Core.Option.{Option, none, some}
use text.Mathlib.Text.{◌==◌}
use trustmodel_edge.Prelude.Tests.{leb, nat_eq, if◌then◌else◌}
use trustmodel_edge.Prelude.Maybe.{◌>>=◌}
use trustmodel_edge.Prelude.Text.{strip}
use trustmodel_edge.Value.{Value, str, dict, no_entries, entry, get_field}

pub record EdgeCredentials : Type 0 where
  pub edge_id : String
  pub tenant_id : String
  pub cert_pem : String
  pub key_pem : String
  pub ca_chain_pem : String
  pub cert_valid_to : ℕ
  pub agp_endpoint : String
  pub telemetry_endpoint : String

-- `CREDENTIAL_FILES`: the texts of the four files that exist.
pub record CredentialFiles : Type 0 where
  pub cert : Option String
  pub key : Option String
  pub ca : Option String
  pub meta : Option String

pub record EdgeClaims : Type 0 where
  pub sub : String
  pub iat : ℕ
  pub exp : ℕ

-- `loads` and `fromisoformat` give `none` when they raise, and `sign` for a key that is none.
pub record Formats : Type 0 where
  pub loads : String → Option Value
  pub dumps : Value → String
  pub isoformat : ℕ → String
  pub fromisoformat : String → Option ℕ
  pub sign : String → EdgeClaims → Option String

-- `read_text` reads "\r\n" and "\r" as "\n"; the flag says that "\r" stands before.
pub newlines_from : Bool → String → String
newlines_from after_return String.[] = ""
newlines_from after_return (String.◌∷◌ c s) =
    let rest = newlines_from (nat_eq (code c) 13) s in
    if nat_eq (code c) 13
    then String.◌∷◌ "\n" rest
    else if after_return && nat_eq (code c) 10
    then rest
    else String.◌∷◌ c rest

unfoldable pub read_text : String → String
unfolding newlines_from
read_text = newlines_from false

abbrev non_empty : String → Option String
non_empty s = if s == "" then none else some s

-- The file of the token: `FileNotFoundError`, its text, or another error.
pub data TokenFile : Type 0 where
  no_file : TokenFile
  token_text : String → TokenFile
  unreadable : TokenFile

-- The outer `none` is an error that is not caught.
unfoldable pub read_bootstrap_token : TokenFile → String → Option (Option String)
unfolding strip read_text
read_bootstrap_token file override =
    if override == ""
    then elim file [
      | no_file ↦ some none
      | token_text t ↦ some (non_empty (strip (read_text t)))
      | unreadable ↦ none
    ]
    else some (non_empty (strip override))

-- Where `persist_credentials` raises, if it does, and what a write that fails leaves in its file:
-- `none` when the file is as it was.
pub data Interrupt : Type 0 where
  uninterrupted : Interrupt
  at_mkdir : Interrupt
  at_cert : Option String → Interrupt
  at_key : Option String → Interrupt
  at_chmod : Interrupt
  at_ca : Option String → Interrupt
  at_meta : Option String → Interrupt

abbrev pub left_in_file : Option String → Option String → Option String
left_in_file none old = old
left_in_file (some t) old = some t

module _ (formats : Formats) where
  abbrev pub meta_value : EdgeCredentials → Value
  meta_value creds = dict (
      entry "edge_id" (str creds.edge_id) (
        entry "tenant_id" (str creds.tenant_id) (
          entry "cert_valid_to" (str (formats.isoformat creds.cert_valid_to)) (
            entry "agp_endpoint" (str creds.agp_endpoint)
              (entry "telemetry_endpoint" (str creds.telemetry_endpoint) no_entries)))))

  -- The files, and whether the call returned.
  unfoldable pub persist_credentials :
      Interrupt → CredentialFiles → EdgeCredentials → CredentialFiles × Bool
  persist_credentials at_mkdir files creds = (files, false)
  persist_credentials (at_cert t) files creds =
      (record files { cert = left_in_file t files.cert }, false)
  persist_credentials (at_key t) files creds =
      (record files { cert = some creds.cert_pem; key = left_in_file t files.key }, false)
  persist_credentials at_chmod files creds =
      (record files { cert = some creds.cert_pem; key = some creds.key_pem }, false)
  persist_credentials (at_ca t) files creds = (
    record files {
      cert = some creds.cert_pem;
      key = some creds.key_pem;
      ca = left_in_file t files.ca;
    },
    false,
  )
  persist_credentials (at_meta t) files creds = (
    record {
      cert = some creds.cert_pem;
      key = some creds.key_pem;
      ca = some creds.ca_chain_pem;
      meta = left_in_file t files.meta;
    },
    false,
  )
  persist_credentials uninterrupted files creds = (
    record {
      cert = some creds.cert_pem;
      key = some creds.key_pem;
      ca = some creds.ca_chain_pem;
      meta = some (formats.dumps (meta_value creds));
    },
    true,
  )

-- `None` is `absent`; `load_raised` is a KeyError or ValueError, which is not caught.
pub data LoadedCredentials : Type 0 where
  present : EdgeCredentials → LoadedCredentials
  absent : LoadedCredentials
  load_raised : LoadedCredentials

-- `b[k]` for a text; `none` is KeyError or TypeError.
unfoldable pub text_field : String → Value → Option String
unfolding get_field
text_field k (dict fs) = elim (get_field k fs) [ some (str s) ↦ some s | _ ↦ none ]
text_field k v = none

module _ (formats : Formats) where
  -- The last statement of `load_credentials`.
  unfoldable pub credentials_of : String → String → String → Value → Option EdgeCredentials
  unfolding text_field
  credentials_of cert_pem key_pem ca_pem meta = do
    edge_id ← text_field "edge_id" meta
    tenant_id ← text_field "tenant_id" meta
    time ← text_field "cert_valid_to" meta
    cert_valid_to ← formats.fromisoformat time
    agp_endpoint ← text_field "agp_endpoint" meta
    telemetry_endpoint ← text_field "telemetry_endpoint" meta
    some (record {
      edge_id = edge_id;
      tenant_id = tenant_id;
      cert_pem = cert_pem;
      key_pem = key_pem;
      ca_chain_pem = ca_pem;
      cert_valid_to = cert_valid_to;
      agp_endpoint = agp_endpoint;
      telemetry_endpoint = telemetry_endpoint;
    })

  -- The `try`: `none` is FileNotFoundError or JSONDecodeError.
  pub read_files : CredentialFiles → Option (String × String × String × Value)
  unfolding read_text
  read_files files = do
    meta_text ← files.meta
    meta ← formats.loads (read_text meta_text)
    cert_pem ← files.cert
    key_pem ← files.key
    ca_pem ← files.ca
    some (read_text cert_pem, read_text key_pem, read_text ca_pem, meta)

  abbrev pub or_raised : Option EdgeCredentials → LoadedCredentials
  or_raised none = load_raised
  or_raised (some creds) = present creds

  abbrev restored : Option (String × String × String × Value) → LoadedCredentials
  restored none = absent
  restored (some (cert_pem, key_pem, ca_pem, meta)) =
      or_raised (credentials_of cert_pem key_pem ca_pem meta)

  unfoldable pub load_credentials : CredentialFiles → LoadedCredentials
  unfolding read_files credentials_of
  load_credentials files = restored (read_files files)

  -- `sign_edge_jwt`; `none` is an exception.
  unfoldable pub sign_edge_jwt : ℕ → String → String → ℕ → Option String
  sign_edge_jwt now edge_id key_pem ttl_s =
      formats.sign key_pem
        (record { sub = edge_id; iat = now / 1000000; exp = now / 1000000 + ttl_s })

-- `ROTATION_TRIGGER_DAYS`, in microseconds
abbrev rotation_trigger : ℕ
rotation_trigger = 30 * 86400 * 1000000

unfoldable is_rotation_due : EdgeCredentials → ℕ → Bool
is_rotation_due creds now = leb creds.cert_valid_to (now + rotation_trigger)
