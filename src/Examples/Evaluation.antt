-- ===== src/Examples/Evaluation.antt =====
-- The engine (src/edge/engine) on a small bundle.
use Prim.Native.String.{String}
use mathlib.Core.Path.{◌≡◌, refl, sym, subst}
use mathlib.Core.Logic.{◌⊎◌}
use mathlib.Core.Bool.{Bool, true, ◌&&◌}
use mathlib.Core.Option.{none}
use mathlib.Core.List.{List, [], ◌∷◌, Memᴰ, Perm, map}
use trustmodel_edge.Prelude.Int.{pos, leb_ℤ, eq_ℤ}
use trustmodel_edge.Prelude.Tests.{nat_eq}
use native.Mathlib.Omega.{arith}
use trustmodel_edge.Prelude.Lists.{All, filter}
use trustmodel_edge.Value.{str, PyText}
use trustmodel_edge.Policy.Bundle.{PolicyRule}
use trustmodel_edge.Engine.Compiler.{
  CompiledRule, CompiledPolicy, base_action, compile_rule, compile_policy, rule_order, rule_le,
}
use trustmodel_edge.Engine.Compiler.Ranked.{
  Outranks, Outranks-rule_le, IsRanked, compile_policy-IsRanked,
}
use trustmodel_edge.Engine.Evaluator.{EvaluationInput, matches, evaluate}
use trustmodel_edge.Engine.Evaluator.FirstMatch.{Selected, Unmatched, Decides, evaluate-Decides}
use trustmodel_edge.Engine.Evaluator.Redactions.{Redacts, evaluate_redact}
use trustmodel_edge.Engine.Priority.{matching, deny_overrides}
use trustmodel_edge.Engine.Conditions.{rule_holds, matches-compile_rule}

abbrev pub py : PyText
py = record { text_of = λ _. "?"; repr = λ s. s }

abbrev deny_delete : PolicyRule
deny_delete = record {
  rule_id = "no-delete";
  when = ("tool", str "delete") ∷ [];
  then_action = "deny";
  framework_tags = [];
  priority = pos 1;
}

abbrev allow_all : PolicyRule
allow_all = record {
  rule_id = "any";
  when = [];
  then_action = "allow";
  framework_tags = [];
  priority = pos 1;
}

abbrev redact_mail : PolicyRule
redact_mail = record {
  rule_id = "mail";
  when = ("tool", str "mail") ∷ [];
  then_action = "redact:args.to";
  framework_tags = [];
  priority = pos 0;
}

abbrev pub rules : List PolicyRule
rules = allow_all ∷ deny_delete ∷ redact_mail ∷ []

abbrev call : String → EvaluationInput
call tool = record {
  tool = tool;
  args = ("to", str "x@example.org") ∷ [];
  subject = none;
  subject_attrs = none;
}

abbrev policy : CompiledPolicy
policy = compile_policy py "p1" "main" "1" rules []

delete_denied : (evaluate py 0 policy (call "delete")).verdict ≡ "deny"
unfolding evaluate compile_policy compile_rule
delete_denied = refl

mail_redacted : (evaluate py 0 policy (call "mail")).redactions ≡ "args.to" ∷ []
unfolding evaluate compile_policy compile_rule
mail_redacted = refl

read_allowed : (evaluate py 0 policy (call "read")).verdict ≡ "allow"
unfolding evaluate compile_policy compile_rule
read_allowed = refl

delete_matches : matches (compile_rule py deny_delete).pattern (call "delete") ≡ true
unfolding compile_rule matches
delete_matches = refl

evaluate-Decides_example :
    Decides py 0 (call "delete") policy.rules (evaluate py 0 policy (call "delete"))
evaluate-Decides_example = evaluate-Decides py 0 (call "delete") policy

evaluate_redact_example :
    ((rule : CompiledRule) × Selected (call "mail") policy.rules rule
      × Redacts (call "mail") rule (evaluate py 0 policy (call "mail")))
    ⊎ (Unmatched (call "mail") policy.rules
        × ((evaluate py 0 policy (call "mail")).verdict ≡ "deny")
        × ((evaluate py 0 policy (call "mail")).redactions ≡ []))
evaluate_redact_example = evaluate_redact py 0 (call "mail") policy

-- The allow rules of priority 1.
abbrev allows_at_one : CompiledRule → Bool
allows_at_one r = nat_eq (rule_order r) 2 && eq_ℤ r.priority (pos 1)

level_at_one :
    (r s : CompiledRule) → allows_at_one r ≡ true → allows_at_one s ≡ true → ¬ Outranks s r
unfolding rule_le
level_at_one r s h k out = absurd (ground (arith, Outranks-rule_le s r out))

compile_policy-IsRanked_example :
    IsRanked policy.rules
    × Perm policy.rules (map (compile_rule py) rules)
    × (filter allows_at_one policy.rules ≡ filter allows_at_one (map (compile_rule py) rules))
compile_policy-IsRanked_example =
    compile_policy-IsRanked py "p1" "main" "1" rules [] allows_at_one level_at_one

says_deny : base_action deny_delete.then_action ≡ "deny"
unfolding base_action
says_deny = refl

none_before : matching py 0 (call "delete") "p1" "main" "1" rules [] ≡ allow_all ∷ deny_delete ∷ []
unfolding compile_rule matches
none_before = refl

deny_overrides_example : (evaluate py 0 policy (call "delete")).verdict ≡ "deny"
deny_overrides_example =
    deny_overrides py 0 (call "delete") "p1" "main" "1" rules [] deny_delete
      (Memᴰ.tail (Memᴰ.head refl)) delete_matches says_deny
      (subst (All (λ r. leb_ℤ (pos 1) r.priority ≡ true)) (sym none_before) (refl, (refl, tt)))

matches-compile_rule_example :
    matches (compile_rule py deny_delete).pattern (call "delete")
    ≡ rule_holds py deny_delete (call "delete")
matches-compile_rule_example = matches-compile_rule py deny_delete (call "delete") (tt, tt)
