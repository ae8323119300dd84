-- ===== src/App/Began.antt =====
-- What a start of src/edge/app.py has done once the pod serves.
use Prim.Native.String.{String}
use mathlib.Core.Path.{◌≡◌, refl}
use mathlib.Core.Bool.{Bool, true, false}
use mathlib.Core.Option.{Option, none, some}
use trustmodel_edge.Value.{Value, PyText}
use trustmodel_edge.Config.{Settings}
use trustmodel_edge.Policy.Bundle.{AuthorizedClient}
use trustmodel_edge.Policy.Disk.{Codec}
use trustmodel_edge.Policy.Cache.{PolicyCache}
use trustmodel_edge.Policy.Cache.Loading.{load_from_disk}
use trustmodel_edge.Policy.Sync.{warm}
use trustmodel_edge.Telemetry.Opening.{DbFiles, Opened}
use trustmodel_edge.Identity.{EdgeCredentials, CredentialFiles, Formats}
use trustmodel_edge.Policy.Jwt.{Minted, minted_token, not_enrolled, mint_raised, mint_cert_jwt}
use trustmodel_edge.Enroll.{
  Bootstrapped, usable, enrollment_failed, bootstrap_raised, bootstrap_if_needed,
}
use trustmodel_edge.App.{
  Pod, StateDir, Surroundings, running, first_round, cache_of, serving, warmed_by, start_policy,
  enrolled_start, startup,
}

module _ {F P : Type 0} (codec : Codec) (py : PyText)
    (validate_client : Value → Option AuthorizedClient) (formats : Formats)
    (connect : DbFiles F → DbFiles F × Opened P) (lower : String → String) (cfg : Settings)
    (around : Surroundings) (dir : StateDir codec.Text F) (pod : Pod codec.Text P) where
  -- The credentials are those of the enrollment, where there is one.
  abbrev Identified : Bool → Option EdgeCredentials → CredentialFiles → Type 0
  Identified true creds files = (creds ≡ none) × (files ≡ dir.credential_files)
  Identified false creds files =
      (c : EdgeCredentials) × (creds ≡ some c)
      × (bootstrap_if_needed formats cfg around.gateway around.token_file around.interrupt
            around.enroll_at dir.credential_files
          ≡ (files, usable c))

  -- The cache is what was on disk, warmed by the first sync.
  pub record Began (skip : Bool) : Type 0 where
    pub creds : Option EdgeCredentials
    pub files : CredentialFiles
    pub cache : PolicyCache
    pub minted : Minted
    pub identified : Identified skip creds files
    pub on_disk : cache_of (load_from_disk codec py dir.policy_files) ≡ some cache
    pub mints : mint_cert_jwt formats around.mint_at files ≡ minted
    pub serves :
        pod
        ≡ serving codec py validate_client formats connect lower cfg around dir.db_files creds files
            (warm codec py validate_client false cfg.multi_policy_enabled
              (first_round around minted)
              (cache, dir.policy_files))

  module _ (skip : Bool) (creds : Option EdgeCredentials) (files : CredentialFiles)
      (id : Identified skip creds files) where
    warmed_by-Began :
        (cache : PolicyCache) (minted : Minted)
        → cache_of (load_from_disk codec py dir.policy_files) ≡ some cache
        → mint_cert_jwt formats around.mint_at files ≡ minted
        → warmed_by codec py validate_client formats connect lower cfg around dir.db_files creds
            files
            (cache, dir.policy_files)
            minted
          ≡ running pod
        → Began skip
    warmed_by-Began cache mint_raised on_disk mints h = absurd (cc)
    warmed_by-Began cache not_enrolled on_disk mints h = record {
      creds = creds;
      files = files;
      cache = cache;
      minted = not_enrolled;
      identified = id;
      on_disk = on_disk;
      mints = mints;
      serves = cc;
    }
    warmed_by-Began cache (minted_token token) on_disk mints h = record {
      creds = creds;
      files = files;
      cache = cache;
      minted = minted_token token;
      identified = id;
      on_disk = on_disk;
      mints = mints;
      serves = cc;
    }

    start_policy-Began :
        (o : Option PolicyCache)
        → cache_of (load_from_disk codec py dir.policy_files) ≡ o
        → start_policy codec py validate_client formats connect lower cfg around dir creds files
          ≡ running pod
        → Began skip
    unfolding start_policy
    start_policy-Began none e h = absurd (cc (rw (e, start_policy) at h))
    start_policy-Began (some cache) e h = warmed_by-Began cache _ e refl (rw (e, start_policy) at h)

  enrolled_start-Began :
      (b : CredentialFiles × Bootstrapped)
      → bootstrap_if_needed formats cfg around.gateway around.token_file around.interrupt
          around.enroll_at dir.credential_files
        ≡ b
      → enrolled_start codec py validate_client formats connect lower cfg around dir b ≡ running pod
      → Began false
  enrolled_start-Began (files, usable creds) e h =
      start_policy-Began false (some creds) files (creds, refl, e) _ refl h
  enrolled_start-Began (files, enrollment_failed) e h = absurd (cc)
  enrolled_start-Began (files, bootstrap_raised) e h = absurd (cc)

  pub startup-Began :
      (skip : Bool)
      → startup codec py validate_client formats connect lower cfg skip around dir ≡ running pod
      → Began skip
  unfolding startup
  startup-Began true h = start_policy-Began true none dir.credential_files (refl, refl) _ refl h
  startup-Began false h = enrolled_start-Began _ refl h
