-- ===== src/Policy/Jwt.antt =====
-- src/edge/policy/jwt.py, as it is called: for the edge of meta.json and 60 seconds.
pub mod Loaded
use Prim.Native.Nat.{ℕ}
use Prim.Native.String.{String}
use mathlib.Core.Option.{Option, none, some}
use trustmodel_edge.Prelude.Text.{strip}
use trustmodel_edge.Value.{Value, str, dict, get_field}
use trustmodel_edge.Identity.{CredentialFiles, Formats, read_text, sign_edge_jwt}

-- A token, `EnrollmentMissing`, or another exception.
pub data Minted : Type 0 where
  minted_token : String → Minted
  not_enrolled : Minted
  mint_raised : Minted

-- `json.loads(…)["edge_id"]`: an exception that is caught, or one that is not.
pub data EdgeId : Type 0 where
  found_id : String → EdgeId
  missing_id : EdgeId
  id_raised : EdgeId

pub edge_id_in : Value → EdgeId
unfolding get_field
edge_id_in (dict fs) = elim (get_field "edge_id" fs) [ some (str s) ↦ found_id s | _ ↦ missing_id ]
edge_id_in v = id_raised

module _ (formats : Formats) where
  abbrev pub signed_token : Option String → Minted
  signed_token none = mint_raised
  signed_token (some token) = minted_token token

  abbrev minted_for : ℕ → String → EdgeId → Minted
  minted_for now key (found_id edge_id) = signed_token (sign_edge_jwt formats now edge_id key 60)
  minted_for now key missing_id = not_enrolled
  minted_for now key id_raised = mint_raised

  pub edge_id_of : Option String → EdgeId
  unfolding read_text strip edge_id_in
  edge_id_of none = missing_id
  edge_id_of (some t) = elim (formats.loads (strip (read_text t))) [
    | none ↦ missing_id
    | some meta ↦ edge_id_in meta
  ]

  unfoldable pub mint_cert_jwt : ℕ → CredentialFiles → Minted
  unfolding read_text strip edge_id_of sign_edge_jwt
  mint_cert_jwt now files = elim files.key [
    | none ↦ not_enrolled
    | some key ↦ minted_for now (strip (read_text key)) (edge_id_of files.meta)
  ]
