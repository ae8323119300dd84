-- ===== src/Enroll.antt =====
-- src/edge/enroll.py. The clock is read once, `now`, in microseconds; `interrupt` is what fails while
-- the files are written.
pub mod Idempotent
use Prim.Native.Nat.{ℕ}
use Prim.Native.String
use Prim.Native.String.{String}
use mathlib.Core.Bool.{Bool, true, false}
use mathlib.Core.Option.{Option, none, some}
use trustmodel_edge.Prelude.Tests.{ltb, if◌then◌else◌}
use trustmodel_edge.Config.{Settings}
use trustmodel_edge.Identity.{
  EdgeCredentials, CredentialFiles, Formats, TokenFile, Interrupt, read_bootstrap_token,
  persist_credentials, LoadedCredentials, present, absent, load_raised, load_credentials,
}
use trustmodel_edge.ControlPlane.{
  EnrollBundle, Gateway, CallResult, answered, edge_revoked, plane_error, call_raised, enroll,
}

-- Credentials, `EnrollmentFailed`, or another exception.
pub data Bootstrapped : Type 0 where
  usable : EdgeCredentials → Bootstrapped
  enrollment_failed : Bootstrapped
  bootstrap_raised : Bootstrapped

abbrev pub credentials_from : EnrollBundle → EdgeCredentials
credentials_from bundle = record {
  edge_id = bundle.edge_id;
  tenant_id = bundle.tenant_id;
  cert_pem = bundle.cert_pem;
  key_pem = bundle.key_pem;
  ca_chain_pem = bundle.ca_chain_pem;
  cert_valid_to = bundle.cert_valid_to;
  agp_endpoint = bundle.agp_endpoint;
  telemetry_endpoint = bundle.telemetry_endpoint;
}

module _ (formats : Formats) (cfg : Settings) (gateway : Gateway) (file : TokenFile)
    (interrupt : Interrupt) where
  abbrev kept_on_disk : EdgeCredentials → CredentialFiles × Bool → CredentialFiles × Bootstrapped
  kept_on_disk creds (files, true) = (files, usable creds)
  kept_on_disk creds (files, false) = (files, bootstrap_raised)

  abbrev after_enroll : CallResult EnrollBundle → CredentialFiles → CredentialFiles × Bootstrapped
  after_enroll (answered bundle) files =
      kept_on_disk (credentials_from bundle)
        (persist_credentials formats interrupt files (credentials_from bundle))
  after_enroll plane_error files = (files, enrollment_failed)
  after_enroll edge_revoked files = (files, bootstrap_raised)
  after_enroll call_raised files = (files, bootstrap_raised)

  -- Behind the reading of the token.
  pub enroll_with : Option (Option String) → CredentialFiles → CredentialFiles × Bootstrapped
  unfolding enroll persist_credentials
  enroll_with none files = (files, bootstrap_raised)
  enroll_with (some none) files = (files, enrollment_failed)
  enroll_with (some (some token)) files =
      after_enroll (enroll formats gateway token cfg.pod_id cfg.cluster_fingerprint) files

  abbrev reused :
      ℕ
      → LoadedCredentials
      → CredentialFiles
      → CredentialFiles × Bootstrapped
      → CredentialFiles × Bootstrapped
  reused now (present creds) files otherwise =
      if ltb now creds.cert_valid_to then (files, usable creds) else otherwise
  reused now absent files otherwise = otherwise
  reused now load_raised files otherwise = (files, bootstrap_raised)

  unfoldable pub bootstrap_if_needed : ℕ → CredentialFiles → CredentialFiles × Bootstrapped
  unfolding load_credentials read_bootstrap_token enroll_with
  bootstrap_if_needed now files =
      reused now (load_credentials formats files) files
        (enroll_with (read_bootstrap_token file cfg.bootstrap_token) files)
