-- ===== src/Engine/Priority.antt =====
-- Compiler and evaluator together: the priority of the rules decides, and at one priority a deny
-- wins (src/edge/engine/compiler.py and src/edge/engine/evaluator.py).
use Prim.Native.Nat.{ℕ, ◌≤◌}
use Prim.Native.String.{String}
use mathlib.Core.Path.{◌≡◌, ap, ◌∙◌, subst}
use mathlib.Core.Logic.{inl, inr}
use mathlib.Core.Bool.{true, false}
use mathlib.Core.List.{List, [], ◌∷◌, ◌++◌, Memᴰ}
use mathlib.Core.List.Memᴰ
use native.Mathlib.Omega.{arith}
use text.Mathlib.TextEquality.{eq_iff}
use trustmodel_edge.Prelude.Lists.{
  All, All-Memᴰ, All-of_map, All-filter_of, All-of_filter, All-of_Memᴰ, filter,
}
use trustmodel_edge.Prelude.Int.{ℤ, leb_ℤ}
use trustmodel_edge.Prelude.Sort.{IsSorted, sort_by-Memᴰ, sort_by-All}
use trustmodel_edge.Value.{PyText}
use trustmodel_edge.Policy.Bundle.{PolicyRule}
use trustmodel_edge.Engine.Compiler.{
  CompiledRule, CompiledPolicy, base_action, action_order, rule_order, rule_le, compile_rule,
  compile_policy,
}
use trustmodel_edge.Engine.Compiler.Order.{KeyLe, rule_le→KeyLe, compile_policy-IsSorted}
use trustmodel_edge.Engine.Evaluator.{EvaluationInput, matches, resolve_action, evaluate}
use trustmodel_edge.Engine.Evaluator.FirstMatch.{
  Selected, Selected-Memᴰ, Unmatched, timed, evaluate-Decides,
}

rule_le_refl : (r : CompiledRule) → rule_le r r ≡ true
unfolding rule_le
rule_le_refl r = ground arith

-- In a sorted list the selected rule comes before every rule that matches.
Selected-least :
    (inp : EvaluationInput) (before behind : List CompiledRule) (rule other : CompiledRule)
    → IsSorted rule_le (before ++ rule ∷ behind)
    → Unmatched inp before
    → Memᴰ other (before ++ rule ∷ behind)
    → matches other.pattern inp ≡ true
    → rule_le rule other ≡ true
Selected-least inp [] behind rule other (h, s) u (Memᴰ.head e) m = rw e (rule_le_refl rule)
Selected-least inp [] behind rule other (h, s) u (Memᴰ.tail later) m =
    All-Memᴰ (λ y. rule_le rule y ≡ true) later h
Selected-least inp (b ∷ bs) behind rule other (h, s) (n, u) (Memᴰ.head e) m =
    absurd (ground (arith, ap (λ (r : CompiledRule). matches r.pattern inp) e))
Selected-least inp (b ∷ bs) behind rule other (h, s) (n, u) (Memᴰ.tail later) m =
    Selected-least inp bs behind rule other s u later m

-- Of the rule that decides and a rule that matches, the first comes first in the order.
Selected-KeyLe :
    (inp : EvaluationInput) (rules : List CompiledRule) (rule other : CompiledRule)
    → IsSorted rule_le rules
    → Selected inp rules rule
    → Memᴰ other rules
    → matches other.pattern inp ≡ true
    → KeyLe rule other
Selected-KeyLe inp rules rule other sorted s m match = rule_le→KeyLe rule other (
    Selected-least inp s.before s.behind rule other (subst (IsSorted rule_le) s.split sorted)
      s.unmatched (subst (Memᴰ other) s.split m) match)

deny_first : (base : String) → action_order base ≤ action_order "deny" → base ≡ "deny"
unfolding action_order
deny_first base h = ground (arith, eq_iff base "deny", eq_iff base "redact", eq_iff base "allow")

resolve_action-deny :
    (py : PyText) (rule : CompiledRule) (inp : EvaluationInput)
    → base_action rule.action ≡ "deny"
    → (resolve_action py rule inp).verdict ≡ "deny"
unfolding resolve_action
resolve_action-deny py rule inp h =
    ground (arith, eq_iff "deny" "redact", eq_iff (base_action rule.action) "redact")

KeyLe-rule_order :
    (r s : CompiledRule)
    → leb_ℤ s.priority r.priority ≡ true
    → KeyLe r s
    → rule_order r ≤ rule_order s
KeyLe-rule_order r s bound before = ground arith

-- A rule that stands before a deny rule with no lower priority number is a deny rule.
KeyLe-deny :
    (py : PyText) (rule : CompiledRule) (raw : PolicyRule)
    → base_action raw.then_action ≡ "deny"
    → leb_ℤ raw.priority rule.priority ≡ true
    → KeyLe rule (compile_rule py raw)
    → base_action rule.action ≡ "deny"
unfolding compile_rule rule_order
KeyLe-deny py rule raw deny bound before = deny_first (base_action rule.action) (
    subst (λ b. action_order (base_action rule.action) ≤ action_order b) deny
      (KeyLe-rule_order rule (compile_rule py raw) bound before))

module _ (py : PyText) (elapsed : ℕ) (inp : EvaluationInput) (policy_id name version : String)
    (rules : List PolicyRule) (tags : List String) where
  abbrev compiled : CompiledPolicy
  compiled = compile_policy py policy_id name version rules tags

  Memᴰ-compiled : (raw : PolicyRule) → Memᴰ raw rules → Memᴰ (compile_rule py raw) compiled.rules
  unfolding compile_policy
  Memᴰ-compiled raw m = sort_by-Memᴰ rule_le _ (Memᴰ.map (compile_rule py) m)

  evaluate_least_raw :
      (raw : PolicyRule)
      → Memᴰ raw rules
      → matches (compile_rule py raw).pattern inp ≡ true
      → (rule : CompiledRule) × Memᴰ rule compiled.rules
        × (matches rule.pattern inp ≡ true)
        × (evaluate py elapsed compiled inp ≡ timed elapsed (resolve_action py rule inp))
        × ((other : PolicyRule)
            → Memᴰ other rules
            → matches (compile_rule py other).pattern inp ≡ true
            → KeyLe rule (compile_rule py other))
  evaluate_least_raw raw m hit = elim (evaluate-Decides py elapsed inp compiled) [
    | inl (rule, s, same) ↦ (
      rule,
      Selected-Memᴰ inp compiled.rules rule s,
      s.matched,
      same,
      λ other mem match.
          Selected-KeyLe inp compiled.rules rule (compile_rule py other)
            (compile_policy-IsSorted py policy_id name version rules tags) s
            (Memᴰ-compiled other mem) match,
    )
    | inr (nothing, same) ↦ absurd (
        ground (arith, All-Memᴰ (λ r. matches r.pattern inp ≡ false) (Memᴰ-compiled raw m) nothing))
  ]

  -- The lower bound on the priorities of the matching raw rules holds of the compiled ones.
  compiled_bound :
      (p : ℤ)
      → All (λ r. matches (compile_rule py r).pattern inp ≡ true → leb_ℤ p r.priority ≡ true) rules
      → All (λ c. matches c.pattern inp ≡ true → leb_ℤ p c.priority ≡ true) compiled.rules
  unfolding compile_policy
  compiled_bound p low =
      sort_by-All rule_le (λ c. matches c.pattern inp ≡ true → leb_ℤ p c.priority ≡ true) _
        (All-of_map (λ c. matches c.pattern inp ≡ true → leb_ℤ p c.priority ≡ true)
          (compile_rule py) rules (unfold compile_rule in low))

  -- The rules of the bundle that match the call.
  abbrev pub matching : List PolicyRule
  matching = filter (λ r. matches (compile_rule py r).pattern inp) rules

  -- If a rule of the bundle matches the call, the result of the compiled policy is that of a matching
  -- rule which comes, by priority and then by action, before or level with every rule of the bundle
  -- that matches.
  pub evaluate_least :
      (raw : PolicyRule)
      → Memᴰ raw rules
      → matches (compile_rule py raw).pattern inp ≡ true
      → (rule : CompiledRule) × Memᴰ rule compiled.rules
        × (matches rule.pattern inp ≡ true)
        × (evaluate py elapsed compiled inp ≡ timed elapsed (resolve_action py rule inp))
        × All (λ other. KeyLe rule (compile_rule py other)) matching
  evaluate_least raw m hit =
      let (rule, mem, match, same, least) = evaluate_least_raw raw m hit in
      (
        rule,
        mem,
        match,
        same,
        All-filter_of (λ other. KeyLe rule (compile_rule py other))
            (λ r. matches (compile_rule py r).pattern inp) rules
            (All-of_Memᴰ
              (λ r. matches (compile_rule py r).pattern inp ≡ true → KeyLe rule (compile_rule py r))
              rules least),
      )

  unfiltered :
      (p : ℤ)
      → All (λ r. leb_ℤ p r.priority ≡ true) matching
      → All (λ r. matches (compile_rule py r).pattern inp ≡ true → leb_ℤ p r.priority ≡ true) rules
  unfiltered p =
      All-of_filter (λ r. leb_ℤ p r.priority ≡ true) (λ r. matches (compile_rule py r).pattern inp)
        rules

  -- A deny rule that matches the call denies it, whatever the other rules say, unless a matching rule
  -- has a lower priority number.
  pub deny_overrides :
      (raw : PolicyRule)
      → Memᴰ raw rules
      → matches (compile_rule py raw).pattern inp ≡ true
      → base_action raw.then_action ≡ "deny"
      → All (λ r. leb_ℤ raw.priority r.priority ≡ true) matching
      → (evaluate py elapsed compiled inp).verdict ≡ "deny"
  deny_overrides raw m hit deny low =
      let (rule, mem, match, same, least) = evaluate_least_raw raw m hit in
      let bound =
        All-Memᴰ (λ c. matches c.pattern inp ≡ true → leb_ℤ raw.priority c.priority ≡ true) mem
          (compiled_bound raw.priority (unfiltered raw.priority low)) match in
      ap (λ r. r.verdict) same
      ∙ resolve_action-deny py rule inp (KeyLe-deny py rule raw deny bound (least raw m hit))
