-- ===== src/Routes.antt =====
-- What the handlers of src/edge/routes share: the answers and the keys on `app.state`.
pub mod Token
pub mod Bearer
pub mod Decide
pub mod Health
pub mod Small
use Prim.Native.Nat.{ℕ}
use Prim.Native.String
use Prim.Native.String.{String}
use mathlib.Core.Path.{◌≡◌}
use mathlib.Core.Bool.{◌||◌}
use mathlib.Core.Option.{Option, none, some}
use mathlib.Core.List.{List}
use text.Mathlib.Text.{◌==◌}
use trustmodel_edge.Prelude.Tests.{if◌then◌else◌, or_else}
use trustmodel_edge.Prelude.Text.{strip}
use trustmodel_edge.Oauth.{Crypto}

-- The `detail` of an HTTPException: a text, `error` with `error_description`, or `error` with
-- `available` and the code policy_not_found.
pub data Detail : Type 0 where
  message : String → Detail
  oauth_error : String → String → Detail
  policy_not_found : String → List String → Detail

-- `raised` is any other exception, which the framework answers with 500.
pub data Outcome {ℓ} (A : Type ℓ) : Type ℓ where
  replied : A → Outcome A
  http_error : ℕ → Detail → Outcome A
  raised : Outcome A

pub replied-eq {ℓ} : {A : Type ℓ} {a b : A} → replied a ≡ replied b → a ≡ b
replied-eq h = cc

pub record AppState : Type 0 where
  pub private_key : Option String
  pub public_key : Option String

-- The keys, `EnrollmentMissing` with its text, or another exception.
pub data Keys {ℓ} (A : Type ℓ) : Type ℓ where
  keys : A → Keys A
  enrollment_missing : String → Keys A
  keys_raised : Keys A

-- `load_private_key_pem`: `key_file` is the text of key.pem, if there is one, and `missing` the text
-- of the exception.
unfoldable pub load_private_key_pem : String → Option String → Keys String
unfolding strip
load_private_key_pem missing none = enrollment_missing missing
load_private_key_pem missing (some text) = keys (strip text)

-- Reads the pair and keeps it on `app.state`.
unfoldable pub read_keys :
    Crypto → String → Option String → AppState → AppState × Keys (String × String)
unfolding load_private_key_pem
read_keys crypto missing key_file state = elim (load_private_key_pem missing key_file) [
  | enrollment_missing error ↦ (state, enrollment_missing error)
  | keys_raised ↦ (state, keys_raised)
  | keys private_key ↦ elim (crypto.public_key_of private_key) [
    | none ↦ (state, keys_raised)
    | some public_key ↦ (
      record { private_key = some private_key; public_key = some public_key },
      keys (private_key, public_key),
    )
  ]
]

-- `if private_key_pem and public_key_pem`
abbrev pub cached_pair : AppState → Option (String × String)
cached_pair state =
    let private_key = or_else state.private_key "" in
    let public_key = or_else state.public_key "" in
    if private_key == "" || public_key == "" then none else some (private_key, public_key)

-- `_key_state` of routes/oauth.py
unfoldable pub key_state :
    Crypto → String → Option String → AppState → AppState × Keys (String × String)
unfolding read_keys
key_state crypto missing key_file state = elim (cached_pair state) [
  | some pair ↦ (state, keys pair)
  | none ↦ read_keys crypto missing key_file state
]

abbrev second : Keys (String × String) → Keys String
second (keys pair) = keys pair.1
second (enrollment_missing error) = enrollment_missing error
second keys_raised = keys_raised

-- `_public_key` of routes/decide.py
unfoldable pub public_key : Crypto → String → Option String → AppState → AppState × Keys String
unfolding read_keys
public_key crypto missing key_file state = elim state.public_key [
  | some key ↦ (state, keys key)
  | none ↦ let (state', result) = read_keys crypto missing key_file state in (state', second result)
]
