-- ===== src/Examples/Enrolling.antt =====
-- Enrollment, rotation and the certificate's tokens (src/edge) with one Edge.
use Prim.Native.Nat.{ℕ, ◌<◌}
use Prim.Native.Char.{Char}
use Prim.Native.String.{String}
use mathlib.Core.Path.{◌≡◌, refl, subst}
use mathlib.Core.Logic.{◌⊎◌}
use mathlib.Core.Bool.{true, false}
use mathlib.Core.Option.{Option, none, some}
use native.Mathlib.Omega.{arith}
use text.Mathlib.Text.{◌==◌}
use trustmodel_edge.Prelude.Tests.{if◌then◌else◌}
use trustmodel_edge.Prelude.Text.{strip}
use trustmodel_edge.Value.{Value, str, bool, dict, no_entries, entry, Entries}
use trustmodel_edge.Config.{Settings, default_settings}
use trustmodel_edge.Identity.{
  EdgeCredentials, CredentialFiles, Formats, no_file, token_text, uninterrupted, at_ca, at_meta,
  read_text, persist_credentials, load_credentials, present, absent, sign_edge_jwt,
  read_bootstrap_token,
}
use trustmodel_edge.Policy.Jwt.{mint_cert_jwt, signed_token}
use trustmodel_edge.Identity.Restored.{ArePlain, ReadsBack}
use trustmodel_edge.Identity.Interrupted.{
  IsTorn, after, Survives, persist_credentials_first, persist_credentials-Survives,
}
use trustmodel_edge.Policy.Jwt.Loaded.{IgnoresSpaces, mint_cert_jwt-load_credentials}
use trustmodel_edge.ControlPlane.{posted, network_error, Gateway, enroll}
use trustmodel_edge.Enroll.{usable, bootstrap_if_needed}
use trustmodel_edge.Enroll.Idempotent.{
  started, Origin, bootstrap_if_needed-Origin, bootstrap_if_needed-again,
}

-- The JSON of one meta.json, and one time.
abbrev meta : Value
meta = dict (
    entry "edge_id" (str "e1") (
      entry "tenant_id" (str "acme") (
        entry "cert_valid_to" (str "2027")
          (entry "agp_endpoint" (str "agp") (entry "telemetry_endpoint" (str "tel") no_entries)))))

abbrev pub formats : Formats
formats = record {
  loads = λ t. if t == "{}" then some meta else none;
  dumps = λ v. "{}";
  isoformat = λ t. "2027";
  fromisoformat = λ t. if t == "2027" then some 5000 else none;
  sign = λ key claims. some "jwt";
}

abbrev credentials : String → String → String → EdgeCredentials
credentials cert key ca = record {
  edge_id = "e1";
  tenant_id = "acme";
  cert_pem = cert;
  key_pem = key;
  ca_chain_pem = ca;
  cert_valid_to = 5000;
  agp_endpoint = "agp";
  telemetry_endpoint = "tel";
}

abbrev pub old_creds : EdgeCredentials
old_creds = credentials "C1" "K1" "A1"

abbrev pub next_creds : EdgeCredentials
next_creds = credentials "C2" "K2" "A2"

abbrev pub no_files : CredentialFiles
no_files = record { cert = none; key = none; ca = none; meta = none }

abbrev pub old_files : CredentialFiles
old_files = record { cert = some "C1"; key = some "K1"; ca = some "A1"; meta = some "{}" }

pub next_plain : ArePlain next_creds
next_plain = ((refl, (refl, tt)), (refl, (refl, tt)), (refl, (refl, tt)))

pub next_reads : ReadsBack formats next_creds
unfolding read_text
next_reads = (refl, refl)

pub old_loads : load_credentials formats old_files ≡ present old_creds
unfolding load_credentials
old_loads = refl

-- The private key is written, the chain is not.
persist_credentials_first_example :
    (((after formats (at_ca none) no_files next_creds).1 ≡ true)
      × (load_credentials formats (after formats (at_ca none) no_files next_creds).0
          ≡ present next_creds))
    ⊎ (((after formats (at_ca none) no_files next_creds).1 ≡ false)
        × (load_credentials formats (after formats (at_ca none) no_files next_creds).0 ≡ absent))
persist_credentials_first_example =
    persist_credentials_first formats (at_ca none) no_files next_creds refl tt next_plain next_reads

torn : IsTorn formats (at_meta (some "{"))
unfolding read_text
torn = refl

-- meta.json is cut short.
persist_credentials-Survives_example :
    Survives formats old_creds
      (load_credentials formats (after formats (at_meta (some "{")) old_files next_creds).0)
persist_credentials-Survives_example =
    persist_credentials-Survives formats (at_meta (some "{")) old_files old_creds next_creds
      old_loads (refl, refl, refl, refl) torn next_plain next_reads

spaces : IgnoresSpaces formats (some "{}")
unfolding read_text strip
spaces t e =
    let same : "{}" ≡ t = cc in
    subst (λ u. formats.loads (strip (read_text u)) ≡ formats.loads (read_text u)) same refl

mint_cert_jwt-load_credentials_example :
    mint_cert_jwt formats 7000000 old_files
    ≡ signed_token formats (sign_edge_jwt formats 7000000 "e1" (strip "K1") 60)
mint_cert_jwt-load_credentials_example =
    mint_cert_jwt-load_credentials formats 7000000 old_files old_creds old_loads spaces

abbrev rotated_body : Entries
rotated_body = entry "client_cert" (str "C2") (
    entry "client_key" (str "K2") (
      entry "ca_chain" (str "A2")
        (entry "cert_valid_from" (str "2027") (entry "cert_valid_to" (str "2027") no_entries))))

abbrev enrolled_body : Value
enrolled_body = dict (
    entry "edge_id" (str "e1") (
      entry "tenant_id" (str "acme")
        (entry "agp_endpoint" (str "agp") (entry "telemetry_endpoint" (str "tel") rotated_body))))

-- It enrolls everyone, and asks for a rotation on each heartbeat.
abbrev pub gateway : Gateway
gateway = record {
  on_enroll = λ token pod fingerprint. posted 201 (some enrolled_body);
  on_rotate = λ header. posted 200 (some (dict rotated_body));
  on_heartbeat = λ header. posted 200 (some (dict (entry "rotation_due" (bool true) no_entries)));
}

-- It knows nobody.
abbrev pub revoking : Gateway
revoking = record {
  on_enroll = λ token pod fingerprint. network_error;
  on_rotate = λ header. posted 403 none;
  on_heartbeat = λ header. posted 401 none;
}

abbrev pub cfg : Settings
cfg = default_settings "acme"

enrolled :
    (bootstrap_if_needed formats cfg gateway (token_text " tok ") uninterrupted 100 no_files).1
    ≡ usable next_creds
unfolding bootstrap_if_needed load_credentials read_bootstrap_token enroll default_settings
    persist_credentials
enrolled = refl

bootstrap_if_needed-Origin_example :
    Origin formats cfg gateway
      (token_text " tok ")
      uninterrupted
      100
      no_files
      next_creds
      (started formats cfg gateway (token_text " tok ") uninterrupted 100 no_files next_creds).0
bootstrap_if_needed-Origin_example =
    bootstrap_if_needed-Origin formats cfg gateway (token_text " tok ") uninterrupted 100 no_files
      next_creds enrolled

in_time : 4000 < 5000
in_time = omega arith

-- The second start has no token and a gateway that knows nobody.
bootstrap_if_needed-again_example :
    bootstrap_if_needed formats cfg revoking no_file uninterrupted 4000
      (started formats cfg gateway (token_text " tok ") uninterrupted 100 no_files next_creds).0
    ≡ (
      (started formats cfg gateway (token_text " tok ") uninterrupted 100 no_files next_creds).0,
      usable next_creds,
    )
bootstrap_if_needed-again_example =
    bootstrap_if_needed-again formats cfg gateway (token_text " tok ") uninterrupted 100 no_files
      next_creds next_plain next_reads enrolled cfg revoking no_file uninterrupted 4000 in_time

abbrev pub decimal : Char → Option ℕ
decimal c = none
