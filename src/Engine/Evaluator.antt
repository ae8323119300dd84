-- ===== src/Engine/Evaluator.antt =====
-- src/edge/engine/evaluator.py. `elapsed` is what the two clock readings of `evaluate` give; the
-- model holds `latency_ms` in millionths of a millisecond.
pub mod FirstMatch
pub mod Redactions
use Prim.Native.Nat.{ℕ}
use Prim.Native.String
use Prim.Native.String.{String}
use mathlib.Core.Bool.{Bool, true, false, ◌&&◌}
use mathlib.Core.Option.{Option, none, some}
use mathlib.Core.List.{List, [], ◌∷◌, map}
use text.Mathlib.Text.{◌==◌}
use trustmodel_edge.Prelude.Tests.{if◌then◌else◌}
use trustmodel_edge.Prelude.Lists.{filter, all, is_empty}
use trustmodel_edge.Prelude.Dict.{Dict, lookup, has_key}
use trustmodel_edge.Prelude.Text.{drop_prefix, remove_prefix, join}
use trustmodel_edge.Value.{Value, PyText, value_eq, or_null}
use trustmodel_edge.Engine.Compiler.{
  MatchPattern, CompiledRule, CompiledPolicy, args_prefix, base_action,
}

pub record EvaluationInput : Type 0 where
  pub tool : String
  pub args : Dict Value
  pub subject : Option String
  pub subject_attrs : Option (Dict Value)

pub record EvaluationResult : Type 0 where
  pub verdict : String
  pub rule_id : String
  pub reason : String
  pub redactions : List String
  pub matched_framework_tags : List String
  pub latency_ms : ℕ

unfoldable pub tool_matches : Option String → String → Bool
tool_matches none tool = true
tool_matches (some t) tool = t == tool

-- `inp.args.get(k) == v`
unfoldable pub arg_equal : Dict Value → String × Value → Bool
unfolding value_eq lookup
arg_equal args (k, v) = value_eq (or_null (lookup k args)) v

unfoldable pub subject_matches : Option String → Option (Dict Value) → Bool
unfolding lookup
subject_matches none attrs = true
subject_matches (some a) none = false
subject_matches (some a) (some attrs) = has_key a attrs

unfoldable pub matches : MatchPattern → EvaluationInput → Bool
unfolding tool_matches arg_equal subject_matches lookup
matches p inp =
    tool_matches p.tool inp.tool
    && (all (λ k. has_key k inp.args) p.arg_keys_present
        && (all (arg_equal inp.args) p.arg_equals
            && subject_matches p.subject_attr inp.subject_attrs))

-- `p.startswith("args.") and p.removeprefix("args.") in inp.args`
pub targets : Dict Value → String → Bool
unfolding drop_prefix lookup
targets args p = elim (drop_prefix args_prefix p) [ none ↦ false | some k ↦ has_key k args ]

pub targeted : CompiledRule → EvaluationInput → List String
unfolding targets
targeted rule inp = filter (targets inp.args) rule.redact_paths

abbrev no_op_redact : CompiledRule → EvaluationResult
no_op_redact rule = record {
  verdict = "allow";
  rule_id = String.◌++◌ rule.rule_id ".no-op-redact";
  reason = "Redact rule matched but no targeted args present.";
  redactions = [];
  matched_framework_tags = rule.framework_tags;
  latency_ms = 0;
}

abbrev redacted : CompiledRule → List String → EvaluationResult
redacted rule present = record {
  verdict = "redact";
  rule_id = rule.rule_id;
  reason = String.◌++◌ "Redacted: " (join ", " (map (λ p. remove_prefix p args_prefix) present));
  redactions = present;
  matched_framework_tags = rule.framework_tags;
  latency_ms = 0;
}

abbrev fired : PyText → CompiledRule → String → EvaluationResult
fired py rule base = record {
  verdict = base;
  rule_id = rule.rule_id;
  reason =
      join "" ("Rule " ∷ py.repr rule.rule_id ∷ " fired with action " ∷ py.repr base ∷ "." ∷ []);
  redactions = [];
  matched_framework_tags = rule.framework_tags;
  latency_ms = 0;
}

unfoldable pub resolve_action : PyText → CompiledRule → EvaluationInput → EvaluationResult
unfolding base_action targeted
resolve_action py rule inp =
    let base = base_action rule.action in
    let present = targeted rule inp in
    if base == "redact"
    then (if is_empty present then no_op_redact rule else redacted rule present)
    else fired py rule base

abbrev pub default_deny : ℕ → EvaluationResult
default_deny elapsed = record {
  verdict = "deny";
  rule_id = "default.fail_safe";
  reason = "No rule matched; fail-safe deny.";
  redactions = [];
  matched_framework_tags = [];
  latency_ms = elapsed;
}

-- The loop over the rules.
pub evaluate_rules : PyText → ℕ → List CompiledRule → EvaluationInput → EvaluationResult
unfolding matches resolve_action
evaluate_rules py elapsed [] inp = default_deny elapsed
evaluate_rules py elapsed (rule ∷ rules) inp =
    if matches rule.pattern inp
    then record (resolve_action py rule inp) { latency_ms = elapsed }
    else evaluate_rules py elapsed rules inp

unfoldable pub evaluate : PyText → ℕ → CompiledPolicy → EvaluationInput → EvaluationResult
unfolding evaluate_rules
evaluate py elapsed policy inp = evaluate_rules py elapsed policy.rules inp
