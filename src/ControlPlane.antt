-- ===== src/ControlPlane.antt =====
-- src/edge/control_plane.py. `Gateway` is what the other side answers to a request; a body is what its
-- JSON decodes to, and its members are texts where the program takes them as they are.
use Prim.Native.Nat.{ℕ}
use Prim.Native.Char.{Char, code}
use Prim.Native.String
use Prim.Native.String.{String}
use mathlib.Core.Bool.{Bool, false, ◌||◌}
use mathlib.Core.Option
use mathlib.Core.Option.{Option, none, some}
use trustmodel_edge.Prelude.Tests.{nat_eq, if◌then◌else◌, or_else}
use trustmodel_edge.Prelude.Maybe.{◌>>=◌}
use trustmodel_edge.Prelude.Int.{ℤ, pos}
use trustmodel_edge.Value.{Value, Entries, null, bool, int, str, dict, bit, get_field, truthy}
use trustmodel_edge.Oauth.{int_of}
use trustmodel_edge.Identity.{EdgeCredentials, Formats, sign_edge_jwt, text_field}

pub record EnrollBundle : Type 0 where
  pub edge_id : String
  pub tenant_id : String
  pub cert_pem : String
  pub key_pem : String
  pub ca_chain_pem : String
  pub cert_valid_from : ℕ
  pub cert_valid_to : ℕ
  pub agp_endpoint : String
  pub telemetry_endpoint : String

pub record RotateBundle : Type 0 where
  pub cert_pem : String
  pub key_pem : String
  pub ca_chain_pem : String
  pub cert_valid_from : ℕ
  pub cert_valid_to : ℕ

pub record HeartbeatResponse : Type 0 where
  pub revoked : Bool
  pub sync_interval_s : ℤ
  pub rotation_due : Bool

-- `_post`: a network error, or a status with the body, if that is JSON.
pub data Posted : Type 0 where
  network_error : Posted
  posted : ℕ → Option Value → Posted

-- The answers to enroll (by token, pod and fingerprint), rotate and heartbeat (by the header).
pub record Gateway : Type 0 where
  pub on_enroll : String → String → String → Posted
  pub on_rotate : String → Posted
  pub on_heartbeat : String → Posted

-- A response, `EdgeRevoked`, `EdgeControlPlaneError`, or another exception.
pub data CallResult {ℓ} (A : Type ℓ) : Type ℓ where
  answered : A → CallResult A
  edge_revoked : CallResult A
  plane_error : CallResult A
  call_raised : CallResult A

-- `s.replace("Z", "+00:00")`
unfoldable replace_z : String → String
replace_z String.[] = ""
replace_z (String.◌∷◌ c s) =
    let rest = replace_z s in
    if nat_eq (code c) 90 then String.◌++◌ "+00:00" rest else String.◌∷◌ c rest

abbrev or_call_raised {ℓ} : {A : Type ℓ} → Option A → CallResult A
or_call_raised none = call_raised
or_call_raised (some a) = answered a

abbrev rejected : ℕ → Bool
rejected status = nat_eq status 401 || nat_eq status 403

-- `int(v)`; `none` is ValueError or TypeError.
abbrev int_value : (Char → Option ℕ) → Value → Option ℤ
int_value decimal (int n) = some n
int_value decimal (bool b) = some (bit b)
int_value decimal (str s) = int_of decimal s
int_value decimal v = none

-- `b.get(k, default)` for a key of a dict.
abbrev field_or : String → Value → Entries → Value
field_or k default fs = or_else (get_field k fs) default

module _ (formats : Formats) where
  abbrev time_field : String → Value → Option ℕ
  time_field k v = text_field k v >>= λ t. formats.fromisoformat (replace_z t)

  unfoldable enroll_bundle : Value → Option EnrollBundle
  unfolding text_field replace_z
  enroll_bundle b = do
    edge_id ← text_field "edge_id" b
    tenant_id ← text_field "tenant_id" b
    cert_pem ← text_field "client_cert" b
    key_pem ← text_field "client_key" b
    ca_chain_pem ← text_field "ca_chain" b
    cert_valid_from ← time_field "cert_valid_from" b
    cert_valid_to ← time_field "cert_valid_to" b
    agp_endpoint ← text_field "agp_endpoint" b
    telemetry_endpoint ← text_field "telemetry_endpoint" b
    some (record {
      edge_id = edge_id;
      tenant_id = tenant_id;
      cert_pem = cert_pem;
      key_pem = key_pem;
      ca_chain_pem = ca_chain_pem;
      cert_valid_from = cert_valid_from;
      cert_valid_to = cert_valid_to;
      agp_endpoint = agp_endpoint;
      telemetry_endpoint = telemetry_endpoint;
    })

  unfoldable rotate_bundle : Value → Option RotateBundle
  unfolding text_field replace_z
  rotate_bundle b = do
    cert_pem ← text_field "client_cert" b
    key_pem ← text_field "client_key" b
    ca_chain_pem ← text_field "ca_chain" b
    cert_valid_from ← time_field "cert_valid_from" b
    cert_valid_to ← time_field "cert_valid_to" b
    some (record {
      cert_pem = cert_pem;
      key_pem = key_pem;
      ca_chain_pem = ca_chain_pem;
      cert_valid_from = cert_valid_from;
      cert_valid_to = cert_valid_to;
    })

  abbrev enrolled : Posted → CallResult EnrollBundle
  enrolled network_error = plane_error
  enrolled (posted status body) =
      if nat_eq status 201 then or_call_raised (body >>= enroll_bundle) else plane_error

  unfoldable pub enroll : Gateway → String → String → String → CallResult EnrollBundle
  unfolding enroll_bundle
  enroll gateway bootstrap_token edge_pod_id cluster_fingerprint =
      enrolled (gateway.on_enroll bootstrap_token edge_pod_id cluster_fingerprint)

  -- `_auth_header`
  abbrev auth_header : ℕ → EdgeCredentials → Option String
  auth_header now creds =
      Option.map (λ token. String.◌++◌ "Bearer " token)
        (sign_edge_jwt formats now creds.edge_id creds.key_pem 60)

  abbrev rotated : Posted → CallResult RotateBundle
  rotated network_error = plane_error
  rotated (posted status body) =
      if rejected status
      then edge_revoked
      else if nat_eq status 200
      then or_call_raised (body >>= rotate_bundle)
      else plane_error

  unfoldable pub rotate : Gateway → ℕ → EdgeCredentials → CallResult RotateBundle
  unfolding rotate_bundle sign_edge_jwt
  rotate gateway now creds = elim (auth_header now creds) [
    | none ↦ call_raised
    | some header ↦ rotated (gateway.on_rotate header)
  ]

  module _ (decimal : Char → Option ℕ) where
    abbrev heartbeat_response : Entries → Option HeartbeatResponse
    heartbeat_response fs =
        Option.map
          (λ interval. record {
            revoked = false;
            sync_interval_s = interval;
            rotation_due = truthy (field_or "rotation_due" (bool false) fs);
          })
          (int_value decimal (field_or "sync_interval_s" (int (pos 60)) fs))

    -- The body; only a dict has `get`.
    unfoldable read_heartbeat : Value → CallResult HeartbeatResponse
    unfolding get_field int_of
    read_heartbeat (dict fs) =
        if truthy (field_or "revoked" null fs)
        then edge_revoked
        else or_call_raised (heartbeat_response fs)
    read_heartbeat v = call_raised

    abbrev read_body : Option Value → CallResult HeartbeatResponse
    read_body none = call_raised
    read_body (some b) = read_heartbeat b

    abbrev beaten : Posted → CallResult HeartbeatResponse
    beaten network_error = plane_error
    beaten (posted status body) =
        if rejected status
        then edge_revoked
        else if nat_eq status 200
        then read_body body
        else plane_error

    unfoldable pub heartbeat : Gateway → ℕ → EdgeCredentials → CallResult HeartbeatResponse
    unfolding read_heartbeat sign_edge_jwt
    heartbeat gateway now creds = elim (auth_header now creds) [
      | none ↦ call_raised
      | some header ↦ beaten (gateway.on_heartbeat header)
    ]
