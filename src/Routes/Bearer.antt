-- ===== src/Routes/Bearer.antt =====
-- `_require_agent_token` of src/edge/routes/decide.py. `Moment` holds what the clocks, uuid4, the file of
-- the key and SQLite give during one call.
use Prim.Native.Nat.{ℕ, ◌+◌}
use Prim.Native.Char.{code}
use Prim.Native.String
use Prim.Native.String.{String}
use mathlib.Core.Bool.{Bool, true, false, ◌&&◌, ◌||◌}
use mathlib.Core.Option.{Option, none, some}
use mathlib.Core.List.{[], ◌∷◌}
use text.Mathlib.Text.{◌==◌}
use trustmodel_edge.Prelude.Tests.{leb, nat_eq, if◌then◌else◌}
use trustmodel_edge.Prelude.Lists.{is_empty}
use trustmodel_edge.Prelude.Text.{strip, drop_chars, join}
use trustmodel_edge.Engine.Compiler.{contains}
use trustmodel_edge.Oauth.{Crypto, AgentTokenClaims, invalid_token, verified, verify_agent_token}
use trustmodel_edge.Routes.{
  message, Outcome, replied, http_error, raised, AppState, Keys, keys, enrollment_missing,
  keys_raised, public_key,
}

-- `now` and `enqueued_at` are microseconds, `unix` seconds; `elapsed` and `latency` are two measured
-- durations, and `enqueue_fails` says whether SQLite raises.
pub record Moment : Type 0 where
  pub now : ℕ
  pub unix : ℕ
  pub missing : String
  pub key_file : Option String
  pub elapsed : ℕ
  pub latency : ℕ
  pub event_id : String
  pub occurred_at : String
  pub enqueued_at : ℕ
  pub enqueue_fails : Bool

abbrev pub govern_enforce : String
govern_enforce = "govern:enforce"

-- The letter equals one of "bearer" in lower case; no other character becomes an ASCII letter of that
-- word under `lower`.
abbrev same_lower : ℕ → ℕ → Bool
same_lower letter c = nat_eq c letter || (nat_eq (c + 32) letter && leb 65 c && leb c 90)

unfoldable has_lower_prefix : String → String → Bool
has_lower_prefix String.[] s = true
has_lower_prefix (String.◌∷◌ c p) String.[] = false
has_lower_prefix (String.◌∷◌ c p) (String.◌∷◌ d s) =
    same_lower (code c) (code d) && has_lower_prefix p s

-- The token in the header; `none` when the header is no bearer header.
pub bearer_token : String → Option String
unfolding has_lower_prefix drop_chars strip
bearer_token authorization =
    if has_lower_prefix "bearer " authorization
    then some (strip (drop_chars 7 authorization))
    else none

abbrev missing_scope : AgentTokenClaims → String
missing_scope claims = join "" (
    "token is missing required scope '"
    ∷ govern_enforce
    ∷ "'; granted scopes: "
    ∷ (if is_empty claims.scopes then "(none)" else join " " claims.scopes)
    ∷ [])

-- Behind the key.
unfoldable pub check_token : Crypto → ℕ → String → String → Outcome AgentTokenClaims
unfolding verify_agent_token contains
check_token crypto unix token key = elim (verify_agent_token crypto unix token key) [
  | invalid_token error ↦ http_error 401 (message error)
  | verified claims ↦
      if contains govern_enforce claims.scopes
      then replied claims
      else http_error 403 (message (missing_scope claims))
]

abbrev pub check_keyed : Crypto → ℕ → String → Keys String → Outcome AgentTokenClaims
check_keyed crypto unix token (keys key) = check_token crypto unix token key
check_keyed crypto unix token (enrollment_missing error) =
    http_error 503 (message (String.◌++◌ "edge enrollment incomplete: " error))
check_keyed crypto unix token keys_raised = raised

-- `_require_agent_token`
unfoldable pub require_agent_token :
    Crypto → Moment → String → AppState → AppState × Outcome AgentTokenClaims
unfolding bearer_token public_key check_token
require_agent_token crypto at authorization app = elim (bearer_token authorization) [
  | none ↦
      (app, http_error 401 (message "missing or malformed Authorization header (expected Bearer)"))
  | some token ↦
      let (app', key) = public_key crypto at.missing at.key_file app in
      if token == ""
      then (app, http_error 401 (message "empty bearer token"))
      else (app', check_keyed crypto at.unix token key)
]
