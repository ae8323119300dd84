-- ===== src/Policy/Bundle.antt =====
-- src/edge/policy/bundle.py: the wire format, after validation. Times are microseconds since the
-- epoch.
use Prim.Native.Nat.{ℕ}
use Prim.Native.String.{String}
use mathlib.Core.Bool.{Bool}
use mathlib.Core.Option.{Option}
use mathlib.Core.List.{List}
use trustmodel_edge.Prelude.Int.{ℤ}
use trustmodel_edge.Prelude.Dict.{Dict}
use trustmodel_edge.Value.{Value}

pub record PolicyRule : Type 0 where
  pub rule_id : String
  pub when : Dict Value
  pub then_action : String
  pub framework_tags : List String
  pub priority : ℤ

pub record Policy : Type 0 where
  pub name : String
  pub version : String
  pub description : String
  pub rules : List PolicyRule
  pub framework_tags : List String

pub record AuthorizedClient : Type 0 where
  pub client_id : String
  pub client_name : String
  pub client_secret_hash : String
  pub allowed_scopes : List String
  pub agent_id : Option String

pub record EdgePolicy : Type 0 where
  pub id : String
  pub tenant_id : String
  pub name : String
  pub version : String
  pub bundle : Policy
  pub is_active : Bool
  pub is_primary : Bool
  pub created_at : ℕ
  pub authorized_clients : List AuthorizedClient
