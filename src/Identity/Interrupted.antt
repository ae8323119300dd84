-- ===== src/Identity/Interrupted.antt =====
-- What `load_credentials` of src/edge/identity.py finds after `persist_credentials` was cut short.
use Prim.Native.String.{String}
use mathlib.Core.Path.{◌≡◌, refl}
use mathlib.Core.Logic.{◌⊎◌, inl, inr}
use mathlib.Core.Bool.{Bool, true, false}
use mathlib.Core.Option.{Option, none, some}
use native.Mathlib.Omega.{arith}
use trustmodel_edge.Value.{Value}
use trustmodel_edge.Identity.{
  EdgeCredentials, CredentialFiles, Formats, Interrupt, uninterrupted, at_mkdir, at_cert, at_key,
  at_chmod, at_ca, at_meta, left_in_file, read_text, persist_credentials, LoadedCredentials,
  or_raised, present, absent, credentials_of, read_files, load_credentials,
}
use trustmodel_edge.Identity.Restored.{ArePlain, ReadsBack, load_credentials-persist_credentials}

-- What rotation keeps.
abbrev pub SameIdentity : EdgeCredentials → EdgeCredentials → Type 0
SameIdentity c d =
    (c.edge_id ≡ d.edge_id)
    × (c.tenant_id ≡ d.tenant_id)
    × (c.agp_endpoint ≡ d.agp_endpoint)
    × (c.telemetry_endpoint ≡ d.telemetry_endpoint)

module _ (formats : Formats) where
  -- A write of meta.json that was cut short leaves no JSON.
  abbrev pub IsTorn : Interrupt → Type 0
  IsTorn uninterrupted = Unit {0}
  IsTorn at_mkdir = Unit {0}
  IsTorn (at_cert t) = Unit {0}
  IsTorn (at_key t) = Unit {0}
  IsTorn at_chmod = Unit {0}
  IsTorn (at_ca t) = Unit {0}
  IsTorn (at_meta none) = Unit {0}
  IsTorn (at_meta (some t)) = (formats.loads (read_text t) ≡ none)

  abbrev pub after : Interrupt → CredentialFiles → EdgeCredentials → CredentialFiles × Bool
  after = persist_credentials formats

  torn-absent :
      (cert key ca : Option String) (t : String)
      → formats.loads (read_text t) ≡ none
      → load_credentials formats (record { cert = cert; key = key; ca = ca; meta = some t })
        ≡ absent
  unfolding load_credentials read_files
  torn-absent cert key ca t e = rw e

  -- Enrollment is all or nothing: where there was no meta.json, `persist_credentials` either
  -- returns, and the credentials are loaded again, or it raises, and nothing is loaded, wherever it
  -- was cut short; if a torn meta.json is no JSON, json and the format of times read back what they
  -- wrote, and the PEM texts have no carriage return.
  pub persist_credentials_first :
      (interrupt : Interrupt) (files : CredentialFiles) (creds : EdgeCredentials)
      → files.meta ≡ none
      → IsTorn interrupt
      → ArePlain creds
      → ReadsBack formats creds
      → (((after interrupt files creds).1 ≡ true)
          × (load_credentials formats (after interrupt files creds).0 ≡ present creds))
        ⊎ (((after interrupt files creds).1 ≡ false)
            × (load_credentials formats (after interrupt files creds).0 ≡ absent))
  unfolding persist_credentials load_credentials read_files
  persist_credentials_first uninterrupted files creds no_meta torn plain reads =
      inl (refl, load_credentials-persist_credentials formats files creds plain reads)
  persist_credentials_first at_mkdir files creds no_meta torn plain reads = inr (refl, rw no_meta)
  persist_credentials_first (at_cert t) files creds no_meta torn plain reads =
      inr (refl, rw no_meta)
  persist_credentials_first (at_key t) files creds no_meta torn plain reads = inr (refl, rw no_meta)
  persist_credentials_first at_chmod files creds no_meta torn plain reads = inr (refl, rw no_meta)
  persist_credentials_first (at_ca t) files creds no_meta torn plain reads = inr (refl, rw no_meta)
  persist_credentials_first (at_meta none) files creds no_meta torn plain reads =
      inr (refl, rw no_meta)
  persist_credentials_first (at_meta (some t)) files creds no_meta torn plain reads =
      inr (refl, rw torn)

  credentials_of-same :
      (cert key ca cert' key' ca' : String) (meta : Value) (old : EdgeCredentials)
      → credentials_of formats cert key ca meta ≡ some old
      → credentials_of formats cert' key' ca' meta
        ≡ some (record old { cert_pem = cert'; key_pem = key'; ca_chain_pem = ca' })
  unfolding credentials_of
  credentials_of-same cert key ca cert' key' ca' meta old h = ground arith

  -- Four files that load.
  pub record Complete (cert key ca meta : Option String) (old : EdgeCredentials) : Type 0 where
    pub cert_text : String
    pub key_text : String
    pub ca_text : String
    pub meta_text : String
    pub value : Value
    pub has_cert : cert ≡ some cert_text
    pub has_key : key ≡ some key_text
    pub has_ca : ca ≡ some ca_text
    pub has_meta : meta ≡ some meta_text
    pub parses : formats.loads (read_text meta_text) ≡ some value
    pub reads :
        credentials_of formats (read_text cert_text) (read_text key_text) (read_text ca_text) value
        ≡ some old

  raised_or :
      (o : Option EdgeCredentials) (old : EdgeCredentials)
      → or_raised formats o ≡ present old
      → o ≡ some old
  raised_or none old h = absurd (cc)
  raised_or (some c) old h = cc

  parsed :
      (cert key ca : Option String) (meta : String) (old : EdgeCredentials) (o : Option Value)
      → formats.loads (read_text meta) ≡ o
      → load_credentials formats (record { cert = cert; key = key; ca = ca; meta = some meta })
        ≡ present old
      → Complete cert key ca (some meta) old
  unfolding load_credentials read_files
  parsed cert key ca meta old none e h = absurd (cc (rw e at h))
  parsed none key ca meta old (some v) e h = absurd (cc (rw e at h))
  parsed (some cert) none ca meta old (some v) e h = absurd (cc (rw e at h))
  parsed (some cert) (some key) none meta old (some v) e h = absurd (cc (rw e at h))
  parsed (some cert) (some key) (some ca) meta old (some v) e h = record {
    cert_text = cert;
    key_text = key;
    ca_text = ca;
    meta_text = meta;
    value = v;
    has_cert = refl;
    has_key = refl;
    has_ca = refl;
    has_meta = refl;
    parses = e;
    reads = raised_or _ old (rw e at h);
  }

  pub complete :
      (cert key ca meta : Option String) (old : EdgeCredentials)
      → load_credentials formats (record { cert = cert; key = key; ca = ca; meta = meta })
        ≡ present old
      → Complete cert key ca meta old
  unfolding load_credentials read_files
  complete cert key ca none old h = absurd (cc)
  complete cert key ca (some meta) old h = parsed cert key ca meta old _ refl h

  -- Other PEM texts beside the same meta.json.
  reloaded :
      (cert key ca : String) (files : CredentialFiles) (old : EdgeCredentials)
      → load_credentials formats files ≡ present old
      → load_credentials formats
          (record { cert = some cert; key = some key; ca = some ca; meta = files.meta })
        ≡ present (record old {
          cert_pem = read_text cert;
          key_pem = read_text key;
          ca_chain_pem = read_text ca;
        })
  unfolding load_credentials read_files
  reloaded cert key ca files old h =
      let c = complete files.cert files.key files.ca files.meta old h in
      rw (
        c.has_meta,
        c.parses,
        credentials_of-same (read_text c.cert_text) (read_text c.key_text) (read_text c.ca_text)
            (read_text cert) (read_text key) (read_text ca) c.value old c.reads,
      )

  -- The text that stands in a file after a write that failed, over a file that was there.
  left_in_file-some :
      (t old : Option String) (s : String)
      → old ≡ some s
      → (u : String) × (left_in_file t old ≡ some u)
  left_in_file-some none old s e = (s, e)
  left_in_file-some (some t) old s e = (t, refl)

  -- Nothing is found, or credentials of the same identity.
  abbrev pub Survives : EdgeCredentials → LoadedCredentials → Type 0
  Survives old found =
      (found ≡ absent)
      ⊎ ((creds : EdgeCredentials) × (found ≡ present creds) × SameIdentity creds old)

  survives :
      (cert key ca : Option String) (files : CredentialFiles) (old : EdgeCredentials)
      → load_credentials formats files ≡ present old
      → ((s : String) × (cert ≡ some s))
      → ((s : String) × (key ≡ some s))
      → ((s : String) × (ca ≡ some s))
      → Survives old
          (load_credentials formats (record { cert = cert; key = key; ca = ca; meta = files.meta }))
  survives cert key ca files old h (c, ce) (k, ke) (a, ae) =
      rw (ce, ke, ae) (inr (_, reloaded c k a files old h, (refl, refl, refl, refl)))

  -- Over files that load, writing credentials of the same identity, as a rotation does, never
  -- changes who the Edge is, wherever it is cut short: what is loaded afterwards has the edge, the
  -- tenant and the endpoints of the old credentials, or nothing is loaded; if a torn meta.json is no
  -- JSON, json and the format of times read back what they wrote, and the PEM texts have no carriage
  -- return.
  pub persist_credentials-Survives :
      (interrupt : Interrupt) (files : CredentialFiles) (old new : EdgeCredentials)
      → load_credentials formats files ≡ present old
      → SameIdentity new old
      → IsTorn interrupt
      → ArePlain new
      → ReadsBack formats new
      → Survives old (load_credentials formats (after interrupt files new).0)
  unfolding persist_credentials
  persist_credentials-Survives uninterrupted files old new h same torn plain reads =
      inr (new, load_credentials-persist_credentials formats files new plain reads, same)
  persist_credentials-Survives at_mkdir files old new h same torn plain reads =
      inr (old, h, (refl, refl, refl, refl))
  persist_credentials-Survives (at_cert t) files old new h same torn plain reads =
      let c = complete files.cert files.key files.ca files.meta old h in
      survives (left_in_file t files.cert) files.key files.ca files old h
        (left_in_file-some t files.cert c.cert_text c.has_cert) (c.key_text, c.has_key)
        (c.ca_text, c.has_ca)
  persist_credentials-Survives (at_key t) files old new h same torn plain reads =
      let c = complete files.cert files.key files.ca files.meta old h in
      survives (some new.cert_pem) (left_in_file t files.key) files.ca files old h
        (new.cert_pem, refl) (left_in_file-some t files.key c.key_text c.has_key)
        (c.ca_text, c.has_ca)
  persist_credentials-Survives at_chmod files old new h same torn plain reads =
      let c = complete files.cert files.key files.ca files.meta old h in
      survives (some new.cert_pem) (some new.key_pem) files.ca files old h (new.cert_pem, refl)
        (new.key_pem, refl) (c.ca_text, c.has_ca)
  persist_credentials-Survives (at_ca t) files old new h same torn plain reads =
      let c = complete files.cert files.key files.ca files.meta old h in
      survives (some new.cert_pem) (some new.key_pem) (left_in_file t files.ca) files old h
        (new.cert_pem, refl) (new.key_pem, refl) (left_in_file-some t files.ca c.ca_text c.has_ca)
  persist_credentials-Survives (at_meta none) files old new h same torn plain reads =
      survives (some new.cert_pem) (some new.key_pem) (some new.ca_chain_pem) files old h
        (new.cert_pem, refl) (new.key_pem, refl) (new.ca_chain_pem, refl)
  persist_credentials-Survives (at_meta (some t)) files old new h same torn plain reads =
      inl (torn-absent (some new.cert_pem) (some new.key_pem) (some new.ca_chain_pem) t torn)
