-- ===== src/Enroll/Idempotent.antt =====
-- Where the credentials of `bootstrap_if_needed` of src/edge/enroll.py come from, and what a restart
-- does with them.
use Prim.Native.Nat.{ℕ, ◌<◌}
use Prim.Native.String.{String}
use mathlib.Core.Path.{◌≡◌, refl, sym, ap, ◌∙◌, subst}
use mathlib.Core.Logic.{◌⊎◌, inl, inr}
use mathlib.Core.Bool.{Bool, true, false}
use mathlib.Core.Option.{Option, none, some}
use trustmodel_edge.Prelude.Tests.{ltb, ltb→lt, lt→ltb, if◌then◌else◌}
use trustmodel_edge.Config.{Settings}
use trustmodel_edge.Identity.{
  EdgeCredentials, CredentialFiles, Formats, TokenFile, Interrupt, uninterrupted, at_mkdir, at_cert,
  at_key, at_chmod, at_ca, at_meta, read_bootstrap_token, persist_credentials, LoadedCredentials,
  present, absent, load_raised, load_credentials,
}
use trustmodel_edge.Identity.Restored.{ArePlain, ReadsBack, load_credentials-persist_credentials}
use trustmodel_edge.ControlPlane.{
  EnrollBundle, Gateway, CallResult, answered, edge_revoked, plane_error, call_raised, enroll,
}
use trustmodel_edge.Enroll.{
  Bootstrapped, usable, credentials_from, kept_on_disk, after_enroll, reused, enroll_with,
  bootstrap_if_needed,
}

module _ (formats : Formats) where
  returned-loads :
      (interrupt : Interrupt) (files : CredentialFiles) (creds : EdgeCredentials)
      → ArePlain creds
      → ReadsBack formats creds
      → (persist_credentials formats interrupt files creds).1 ≡ true
      → load_credentials formats (persist_credentials formats interrupt files creds).0
        ≡ present creds
  unfolding persist_credentials
  returned-loads uninterrupted files creds plain reads h =
      load_credentials-persist_credentials formats files creds plain reads
  returned-loads at_mkdir files creds plain reads h = absurd (cc)
  returned-loads (at_cert t) files creds plain reads h = absurd (cc)
  returned-loads (at_key t) files creds plain reads h = absurd (cc)
  returned-loads at_chmod files creds plain reads h = absurd (cc)
  returned-loads (at_ca t) files creds plain reads h = absurd (cc)
  returned-loads (at_meta t) files creds plain reads h = absurd (cc)

  module _ (cfg : Settings) (gateway : Gateway) (file : TokenFile) (interrupt : Interrupt) (now : ℕ)
      (files : CredentialFiles) (creds : EdgeCredentials) where
    abbrev pub started : CredentialFiles × Bootstrapped
    started = bootstrap_if_needed formats cfg gateway file interrupt now files

    -- The credentials on disk, while they are valid.
    abbrev IsReused : CredentialFiles → Type 0
    IsReused after =
        (load_credentials formats files ≡ present creds)
        × (now < creds.cert_valid_to)
        × (after ≡ files)

    -- The answer of the gateway to a token, kept on disk.
    abbrev IsEnrolled : CredentialFiles → Type 0
    IsEnrolled after =
        (token : String) × (bundle : EnrollBundle) × (read_bootstrap_token file cfg.bootstrap_token
          ≡ some (some token))
        × (enroll formats gateway token cfg.pod_id cfg.cluster_fingerprint ≡ answered bundle)
        × (creds ≡ credentials_from bundle)
        × ((after, true) ≡ persist_credentials formats interrupt files creds)

    kept_on_disk-eq :
        (c : EdgeCredentials) (p : CredentialFiles × Bool)
        → (kept_on_disk formats cfg gateway file interrupt c p).1 ≡ usable creds
        → (creds ≡ c) × (((kept_on_disk formats cfg gateway file interrupt c p).0, true) ≡ p)
    kept_on_disk-eq c (f, true) h = (cc, refl)
    kept_on_disk-eq c (f, false) h = absurd (cc)

    after_enroll-eq :
        (r : CallResult EnrollBundle)
        → (after_enroll formats cfg gateway file interrupt r files).1 ≡ usable creds
        → (bundle : EnrollBundle) × (r ≡ answered bundle)
          × (creds ≡ credentials_from bundle)
          × (((after_enroll formats cfg gateway file interrupt r files).0, true)
              ≡ persist_credentials formats interrupt files creds)
    after_enroll-eq (answered bundle) h =
        let (same, kept) =
          kept_on_disk-eq (credentials_from bundle)
            (persist_credentials formats interrupt files (credentials_from bundle)) h in
        (bundle, refl, same, kept ∙ ap (persist_credentials formats interrupt files) (sym same))
    after_enroll-eq edge_revoked h = absurd (cc)
    after_enroll-eq plane_error h = absurd (cc)
    after_enroll-eq call_raised h = absurd (cc)

    abbrev otherwise : CredentialFiles × Bootstrapped
    otherwise =
        enroll_with formats cfg gateway file interrupt
          (read_bootstrap_token file cfg.bootstrap_token) files

    enroll_with-IsEnrolled :
        (t : Option (Option String))
        → read_bootstrap_token file cfg.bootstrap_token ≡ t
        → (enroll_with formats cfg gateway file interrupt t files).1 ≡ usable creds
        → IsEnrolled (enroll_with formats cfg gateway file interrupt t files).0
    unfolding enroll_with
    enroll_with-IsEnrolled none e h = absurd (cc)
    enroll_with-IsEnrolled (some none) e h = absurd (cc)
    enroll_with-IsEnrolled (some (some token)) e h =
        let (bundle, answer, same, kept) = after_enroll-eq _ h in
        (token, bundle, e, answer, same, kept)

    abbrev pub Origin : CredentialFiles → Type 0
    Origin after = IsReused after ⊎ IsEnrolled after

    valid_by :
        (c : EdgeCredentials) (b : Bool)
        → ltb now c.cert_valid_to ≡ b
        → load_credentials formats files ≡ present c
        → (if b then (files, usable c) else otherwise).1 ≡ usable creds
        → Origin (if b then (files, usable c) else otherwise).0
    valid_by c true t e h =
        let same : creds ≡ c = cc in
        inl (
          e ∙ ap present (sym same),
          subst (λ d. now < d.cert_valid_to) (sym same) (ltb→lt now c.cert_valid_to t),
          refl,
        )
    valid_by c false t e h = inr (enroll_with-IsEnrolled _ refl h)

    origin :
        (l : LoadedCredentials)
        → load_credentials formats files ≡ l
        → (reused formats cfg gateway file interrupt now l files otherwise).1 ≡ usable creds
        → Origin (reused formats cfg gateway file interrupt now l files otherwise).0
    origin (present c) e h = valid_by c _ refl e h
    origin absent e h = inr (enroll_with-IsEnrolled _ refl h)
    origin load_raised e h = absurd (cc)

    -- Credentials that the start goes on with are either those on disk, not expired, and the files
    -- stay as they are, or the gateway's answer to the bootstrap token, and then they have been
    -- written to disk.
    pub bootstrap_if_needed-Origin : started.1 ≡ usable creds → Origin started.0
    unfolding bootstrap_if_needed
    bootstrap_if_needed-Origin h = origin _ refl h

  module _ (cfg : Settings) (gateway : Gateway) (file : TokenFile) (interrupt : Interrupt) (now : ℕ)
      (files : CredentialFiles) (creds : EdgeCredentials) where
    loads_after :
        (after : CredentialFiles)
        → ArePlain creds
        → ReadsBack formats creds
        → Origin cfg gateway file interrupt now files creds after
        → load_credentials formats after ≡ present creds
    loads_after after plain reads (inl (loaded, _, same)) =
        ap (load_credentials formats) same ∙ loaded
    loads_after after plain reads (inr (_, _, _, _, _, kept)) =
        ap (λ p. load_credentials formats p.0) kept
        ∙ returned-loads interrupt files creds plain reads (sym (ap (λ p. p.1) kept))

  reused-present :
      (cfg : Settings) (gateway : Gateway) (file : TokenFile) (interrupt : Interrupt) (now : ℕ)
      (files : CredentialFiles) (creds : EdgeCredentials)
      → load_credentials formats files ≡ present creds
      → now < creds.cert_valid_to
      → bootstrap_if_needed formats cfg gateway file interrupt now files ≡ (files, usable creds)
  unfolding bootstrap_if_needed
  reused-present cfg gateway file interrupt now files creds h early =
      rw (h, lt→ltb now creds.cert_valid_to early)

  -- A start after one that went on with credentials goes on with the same and leaves the files as they
  -- are, without a token and whatever the gateway would answer now, until the certificate expires; if
  -- json and the format of times read back what they wrote and the PEM texts have no carriage return.
  pub bootstrap_if_needed-again :
      (cfg : Settings) (gateway : Gateway) (file : TokenFile) (interrupt : Interrupt) (now : ℕ)
      (files : CredentialFiles) (creds : EdgeCredentials)
      → ArePlain creds
      → ReadsBack formats creds
      → (started cfg gateway file interrupt now files creds).1 ≡ usable creds
      → (cfg' : Settings) (gateway' : Gateway) (file' : TokenFile) (interrupt' : Interrupt)
        (now' : ℕ)
      → now' < creds.cert_valid_to
      → bootstrap_if_needed formats cfg' gateway' file' interrupt' now'
          (started cfg gateway file interrupt now files creds).0
        ≡ ((started cfg gateway file interrupt now files creds).0, usable creds)
  bootstrap_if_needed-again cfg gateway file interrupt now files creds plain reads h cfg' gateway'
        file' interrupt' now' early =
      reused-present cfg' gateway' file' interrupt' now' _ creds
        (loads_after cfg gateway file interrupt now files creds _ plain reads
          (bootstrap_if_needed-Origin cfg gateway file interrupt now files creds h))
        early
