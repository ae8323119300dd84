-- ===== src/Engine/Compiler.antt =====
-- src/edge/engine/compiler.py. The raw rules are the dumps of `PolicyRule`, so `str` and `int` of
-- their typed fields change nothing, and every key is there.
pub mod Actions
pub mod Order
pub mod Ranked
use Prim.Native.Nat.{ℕ}
use Prim.Native.String.{String}
use mathlib.Core.Bool.{Bool, true, false}
use mathlib.Core.Option.{Option, none, some}
use mathlib.Core.List.{List, [], ◌∷◌, ◌++◌, map}
use text.Mathlib.Text.{◌==◌}
use trustmodel_edge.Prelude.Tests.{leb, if◌then◌else◌, or_else}
use trustmodel_edge.Prelude.Lists.{filter}
use trustmodel_edge.Prelude.Sort.{sort_by}
use trustmodel_edge.Prelude.Dict.{Dict, lookup, insert}
use trustmodel_edge.Prelude.Int.{ℤ, ltb_ℤ, eq_ℤ}
use trustmodel_edge.Prelude.Text.{drop_prefix, split_once, split_on, strip}
use trustmodel_edge.Value.{Value, null, str, PyText, str_of, is_true, truthy, or_null}
use trustmodel_edge.Policy.Bundle.{PolicyRule}

pub record MatchPattern : Type 0 where
  pub tool : Option String
  pub arg_keys_present : List String
  pub arg_equals : Dict Value
  pub subject_attr : Option String

pub record CompiledRule : Type 0 where
  pub rule_id : String
  pub pattern : MatchPattern
  pub action : String
  pub redact_paths : List String
  pub framework_tags : List String
  pub priority : ℤ

pub record CompiledPolicy : Type 0 where
  pub policy_id : String
  pub name : String
  pub version : String
  pub rules : List CompiledRule
  pub framework_tags : List String

abbrev pub args_prefix : String
args_prefix = "args."

-- None and "*" are the wildcard.
abbrev pub read_tool : PyText → Value → Option String
read_tool py null = none
read_tool py (str s) = if s == "*" then none else some s
read_tool py v = some (str_of py v)

abbrev pub read_subject_attr : PyText → Value → Option String
read_subject_attr py v = if truthy v then some (str_of py v) else none

unfoldable pub contains : String → List String → Bool
contains k [] = false
contains k (j ∷ js) = if j == k then true else contains k js

-- `set.add`
unfoldable pub set_add : String → List String → List String
unfolding contains
set_add k ks = if contains k ks then ks else ks ++ k ∷ []

pub record Conditions : Type 0 where
  pub present : List String
  pub equals : Dict Value

-- One round of the loop over `when.items()`.
unfoldable pub read_condition : Conditions → String → Value → Conditions
unfolding set_add insert drop_prefix
read_condition c k v = elim (drop_prefix args_prefix k) [
  | none ↦ c
  | some key ↦
      if is_true v
      then record c { present = set_add key c.present }
      else record c { equals = insert key v c.equals }
]

unfoldable pub read_conditions : Conditions → Dict Value → Conditions
unfolding read_condition
read_conditions c [] = c
read_conditions c ((k, v) ∷ rest) = read_conditions (read_condition c k v) rest

abbrev pub no_conditions : Conditions
no_conditions = record { present = []; equals = [] }

-- `then.split(":", 1)[0]`
unfoldable pub base_action : String → String
unfolding split_once
base_action action = (split_once b':' action).0

abbrev is_text : String → Bool
is_text s = if s == "" then false else true

unfoldable read_redact_paths : String → List String
unfolding split_once split_on strip base_action
read_redact_paths action =
    if base_action action == "redact"
    then filter is_text (map strip (split_on b',' (or_else (split_once b':' action).1 "")))
    else []

-- One round of the loop over the raw rules.
unfoldable pub compile_rule : PyText → PolicyRule → CompiledRule
unfolding read_conditions read_redact_paths lookup
compile_rule py raw =
    let read = read_conditions no_conditions raw.when in
    record {
      rule_id = raw.rule_id;
      pattern = record {
        tool = read_tool py (or_null (lookup "tool" raw.when));
        arg_keys_present = read.present;
        arg_equals = read.equals;
        subject_attr = read_subject_attr py (or_null (lookup "subject_attr" raw.when));
      };
      action = raw.then_action;
      redact_paths = read_redact_paths raw.then_action;
      framework_tags = raw.framework_tags;
      priority = raw.priority;
    }

unfoldable pub action_order : String → ℕ
action_order base =
    if base == "deny" then 0 else if base == "redact" then 1 else if base == "allow" then 2 else 3

unfoldable pub rule_order : CompiledRule → ℕ
unfolding action_order base_action
rule_order r = action_order (base_action r.action)

-- The order of the sort keys `(priority, action_order)`.
unfoldable pub rule_le : CompiledRule → CompiledRule → Bool
unfolding rule_order
rule_le r s =
    if ltb_ℤ r.priority s.priority
    then true
    else if eq_ℤ r.priority s.priority
    then leb (rule_order r) (rule_order s)
    else false

unfoldable pub compile_policy :
    PyText → String → String → String → List PolicyRule → List String → CompiledPolicy
unfolding compile_rule rule_le sort_by
compile_policy py policy_id name version rules framework_tags = record {
  policy_id = policy_id;
  name = name;
  version = version;
  rules = sort_by rule_le (map (compile_rule py) rules);
  framework_tags = framework_tags;
}
