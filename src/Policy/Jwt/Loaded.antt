-- ===== src/Policy/Jwt/Loaded.antt =====
-- For whom src/edge/policy/jwt.py mints tokens.
use Prim.Native.Nat.{ℕ}
use Prim.Native.String.{String}
use mathlib.Core.Path.{◌≡◌, sym, ap, ◌∙◌}
use mathlib.Core.Option.{Option, some}
use native.Mathlib.Omega.{arith}
use trustmodel_edge.Prelude.Text.{strip}
use trustmodel_edge.Value.{Value}
use trustmodel_edge.Identity.{
  EdgeCredentials, CredentialFiles, Formats, read_text, present, load_credentials, text_field,
  credentials_of, sign_edge_jwt,
}
use trustmodel_edge.Policy.Jwt.{found_id, edge_id_in, signed_token, edge_id_of, mint_cert_jwt}
use trustmodel_edge.Identity.Interrupted.{complete}

edge_id_in-text_field :
    (v : Value) (s : String) → text_field "edge_id" v ≡ some s → edge_id_in v ≡ found_id s
unfolding text_field edge_id_in
edge_id_in-text_field v s h = ground arith

module _ (formats : Formats) where
  key_of :
      (cert key ca : String) (meta : Value) (creds : EdgeCredentials)
      → credentials_of formats cert key ca meta ≡ some creds
      → creds.key_pem ≡ key
  unfolding credentials_of
  key_of cert key ca meta creds h = ground arith

  id_of :
      (cert key ca : String) (meta : Value) (creds : EdgeCredentials)
      → credentials_of formats cert key ca meta ≡ some creds
      → text_field "edge_id" meta ≡ some creds.edge_id
  unfolding credentials_of
  id_of cert key ca meta creds h = ground arith

  -- json reads the text of meta.json also without the spaces around it.
  abbrev pub IgnoresSpaces : Option String → Type 0
  IgnoresSpaces o =
      (t : String) → o ≡ some t → formats.loads (strip (read_text t)) ≡ formats.loads (read_text t)

  found_by :
      (o : Option String) (t : String) (v : Value) (id : String)
      → o ≡ some t
      → formats.loads (strip (read_text t)) ≡ some v
      → edge_id_in v ≡ found_id id
      → edge_id_of formats o ≡ found_id id
  unfolding edge_id_of
  found_by o t v id e parses names = rw (e, edge_id_of, parses, names)

  minted_by :
      (now : ℕ) (files : CredentialFiles) (key id : String)
      → files.key ≡ some key
      → edge_id_of formats files.meta ≡ found_id id
      → mint_cert_jwt formats now files
        ≡ signed_token formats (sign_edge_jwt formats now id (strip (read_text key)) 60)
  unfolding mint_cert_jwt
  minted_by now files key id has_key names = rw (mint_cert_jwt, has_key, names)

  -- A token that is minted from the state directory speaks for the credentials that are loaded from it:
  -- it is signed for their edge and with their key, if json reads meta.json also without the spaces
  -- around it.
  pub mint_cert_jwt-load_credentials :
      (now : ℕ) (files : CredentialFiles) (creds : EdgeCredentials)
      → load_credentials formats files ≡ present creds
      → IgnoresSpaces files.meta
      → mint_cert_jwt formats now files
        ≡ signed_token formats (sign_edge_jwt formats now creds.edge_id (strip creds.key_pem) 60)
  mint_cert_jwt-load_credentials now files creds h spaces =
      let c = complete formats files.cert files.key files.ca files.meta creds h in
      let cert = read_text c.cert_text in
      let key = read_text c.key_text in
      let ca = read_text c.ca_text in
      minted_by now files c.key_text creds.edge_id c.has_key (
        found_by files.meta c.meta_text c.value creds.edge_id c.has_meta
          (spaces c.meta_text c.has_meta ∙ c.parses)
          (edge_id_in-text_field c.value creds.edge_id (id_of cert key ca c.value creds c.reads)))
      ∙ ap (λ k. signed_token formats (sign_edge_jwt formats now creds.edge_id (strip k) 60))
          (sym (key_of cert key ca c.value creds c.reads))
