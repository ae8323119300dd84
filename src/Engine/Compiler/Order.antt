-- ===== src/Engine/Compiler/Order.antt =====
-- The order in which `compile_policy` of src/edge/engine/compiler.py leaves the rules.
use Prim.Native.Nat.{◌+◌, ◌≤◌, ◌<◌}
use Prim.Native.String.{String}
use mathlib.Core.Path.{◌≡◌}
use mathlib.Core.Logic.{◌⊎◌}
use mathlib.Core.Bool.{true, false}
use mathlib.Core.List.{List, map}
use native.Mathlib.Omega.{arith}
use trustmodel_edge.Prelude.Int.{pos_part, neg_part}
use trustmodel_edge.Prelude.Sort.{IsSorted, sort_by-IsSorted}
use trustmodel_edge.Value.{PyText}
use trustmodel_edge.Policy.Bundle.{PolicyRule}
use trustmodel_edge.Engine.Compiler.{
  CompiledRule, CompiledPolicy, rule_order, rule_le, compile_rule, compile_policy,
}

-- The sort keys in order, read as an order of numbers.
abbrev pub KeyLe : CompiledRule → CompiledRule → Type 0
KeyLe r s =
    (pos_part r.priority + neg_part s.priority < pos_part s.priority + neg_part r.priority)
    ⊎ ((pos_part r.priority + neg_part s.priority ≡ pos_part s.priority + neg_part r.priority)
        × (rule_order r ≤ rule_order s))

pub rule_le→KeyLe : (r s : CompiledRule) → rule_le r s ≡ true → KeyLe r s
unfolding rule_le
rule_le→KeyLe r s h = ground arith

KeyLe→rule_le : (r s : CompiledRule) → KeyLe r s → rule_le r s ≡ true
unfolding rule_le
KeyLe→rule_le r s h = ground arith

KeyLe-trans : (r s t : CompiledRule) → KeyLe r s → KeyLe s t → KeyLe r t
KeyLe-trans r s t h k = omega arith

rule_le-total : (r s : CompiledRule) → rule_le r s ≡ false → rule_le s r ≡ true
unfolding rule_le
rule_le-total r s h = ground arith

rule_le_trans :
    (r s t : CompiledRule) → rule_le r s ≡ true → rule_le s t ≡ true → rule_le r t ≡ true
rule_le_trans r s t h k =
    KeyLe→rule_le r t (KeyLe-trans r s t (rule_le→KeyLe r s h) (rule_le→KeyLe s t k))

module _ (py : PyText) (policy_id name version : String) (rules : List PolicyRule)
    (tags : List String) where
  abbrev compiled : CompiledPolicy
  compiled = compile_policy py policy_id name version rules tags

  pub compile_policy-IsSorted : IsSorted rule_le compiled.rules
  unfolding compile_policy
  compile_policy-IsSorted =
      sort_by-IsSorted rule_le rule_le-total rule_le_trans (map (compile_rule py) rules)
