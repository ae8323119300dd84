-- ===== src/Engine/Evaluator/Redactions.antt =====
-- The redactions that `evaluate` of src/edge/engine/evaluator.py asks for.
use Prim.Native.Nat.{ℕ}
use Prim.Native.String
use Prim.Native.String.{String}
use mathlib.Core.Path.{◌≡◌, refl, sym, ap, ◌∙◌, subst}
use mathlib.Core.Logic.{◌⊎◌, inl, inr, ◌≢◌}
use mathlib.Core.Bool.{true, false}
use mathlib.Core.Option.{some}
use mathlib.Core.List.{List, [], ◌∷◌}
use native.Mathlib.Omega.{arith}
use text.Mathlib.Text.{◌==◌}
use text.Mathlib.TextEquality.{eq_iff}
use trustmodel_edge.Prelude.Lists.{filter, is_empty}
use trustmodel_edge.Prelude.Tests.{Bool-cases, Option-cases}
use trustmodel_edge.Prelude.Dict.{Dict, lookup}
use trustmodel_edge.Prelude.Prefix.{drop_prefix-eq, drop_prefix-append}
use trustmodel_edge.Prelude.Text.{drop_prefix}
use trustmodel_edge.Value.{Value, PyText}
use trustmodel_edge.Engine.Compiler.{CompiledRule, CompiledPolicy, base_action}
use trustmodel_edge.Engine.Compiler.Actions.{Acts, base_action-Acts, Acts-base_action}
use trustmodel_edge.Engine.Evaluator.{
  EvaluationInput, EvaluationResult, targets, targeted, resolve_action, evaluate,
}
use trustmodel_edge.Engine.Evaluator.FirstMatch.{
  Selected, Unmatched, is_empty-eq-nil, evaluate-Decides,
}

-- The path is "args." and the name of an argument that the call gives.
abbrev pub Names : Dict Value → String → Type 0
Names args p =
    (key : String) × (v : Value) × (p ≡ String.◌++◌ "args." key) × (lookup key args ≡ some v)

-- The second list is the paths of the first that name an argument, in their order.
pub data Named (args : Dict Value) : List String → List String → Type 0 where
  none_left : Named args [] []
  names :
      {p : String} {ps qs : List String}
      → Names args p
      → Named args ps qs
      → Named args (p ∷ ps) (p ∷ qs)
  skips :
      {p : String} {ps qs : List String}
      → ¬ Names args p
      → Named args ps qs
      → Named args (p ∷ ps) qs

targets-Names : (args : Dict Value) (p : String) → targets args p ≡ true → Names args p
unfolding targets
targets-Names args p h = elim (Option-cases (drop_prefix "args." p)) [
  | inl e ↦ absurd (cc (rw (e, targets) at h))
  | inr (key, e) ↦ elim (Option-cases (lookup key args)) [
    | inl f ↦ absurd (cc (rw (e, f, targets) at h))
    | inr (v, f) ↦ (key, v, drop_prefix-eq "args." p key e, f)
  ]
]

Names-targets : (args : Dict Value) (p : String) → Names args p → targets args p ≡ true
unfolding targets
Names-targets args p (key, v, same, given) =
    let at_key : drop_prefix "args." p ≡ some key =
      ap (drop_prefix "args.") same ∙ drop_prefix-append "args." key in
    rw (at_key, given, targets) refl

filter-Named : (args : Dict Value) (ps : List String) → Named args ps (filter (targets args) ps)
filter-Named args [] = none_left
filter-Named args (p ∷ ps) = elim (Bool-cases (targets args p)) [
  | inl e ↦ rw e (names (targets-Names args p e) (filter-Named args ps))
  | inr e ↦ rw e (skips (λ n. absurd (cc (e, Names-targets args p n))) (filter-Named args ps))
]

-- What a rule asks to redact when it decides.
abbrev pub Redacts : EvaluationInput → CompiledRule → EvaluationResult → Type 0
Redacts inp rule result =
    (Acts "redact" rule.action
      × Named inp.args rule.redact_paths result.redactions
      × (((result.verdict ≡ "redact") × (result.redactions ≢ []))
          ⊎ ((result.verdict ≡ "allow") × (result.redactions ≡ []))))
    ⊎ ((¬ Acts "redact" rule.action)
        × (result.verdict ≢ "redact")
        × Acts result.verdict rule.action
        × (result.redactions ≡ []))

targeted-Named :
    (inp : EvaluationInput) (rule : CompiledRule)
    → Named inp.args rule.redact_paths (targeted rule inp)
unfolding targeted
targeted-Named inp rule = filter-Named inp.args rule.redact_paths

module _ (py : PyText) (inp : EvaluationInput) (rule : CompiledRule) where
  redact_rule : base_action rule.action ≡ "redact" → Redacts inp rule (resolve_action py rule inp)
  unfolding resolve_action
  redact_rule e = elim (Bool-cases (is_empty (targeted rule inp))) [
    | inl f ↦
        let nothing = is_empty-eq-nil (targeted rule inp) f in
        let left_none : Named inp.args rule.redact_paths [] =
          subst (Named inp.args rule.redact_paths) nothing (targeted-Named inp rule) in
        rw (e, f, resolve_action)
          (inl (base_action-Acts rule.action "redact" e, left_none, inr (refl, refl)))
    | inr f ↦
        rw (e, f, resolve_action)
          (inl (
            base_action-Acts rule.action "redact" e,
            targeted-Named inp rule,
            inl (refl, λ h. absurd (cc f)),
          ))
  ]

  other_rule :
      (base_action rule.action == "redact") ≡ false → Redacts inp rule (resolve_action py rule inp)
  unfolding resolve_action
  other_rule ne =
      let differs : base_action rule.action ≢ "redact" =
        ground (arith, eq_iff (base_action rule.action) "redact") in
      rw (ne, resolve_action)
        (inr (
          λ h. differs (Acts-base_action rule.action "redact" refl h),
          differs,
          base_action-Acts rule.action (base_action rule.action) refl,
          refl,
        ))

  resolve_action-Redacts : Redacts inp rule (resolve_action py rule inp)
  resolve_action-Redacts = elim (Bool-cases (base_action rule.action == "redact")) [
    | inl e ↦ redact_rule ((eq_iff (base_action rule.action) "redact").0 e)
    | inr e ↦ other_rule e
  ]

module _ (py : PyText) (elapsed : ℕ) (inp : EvaluationInput) (policy : CompiledPolicy) where
  abbrev result : EvaluationResult
  result = evaluate py elapsed policy inp

  -- If the first matching rule says "redact", the redactions are its paths that are "args." and the
  -- name of an argument of the call, all of them and in their order; the verdict is "redact" if there
  -- are any, and "allow" if there are none. If the first matching rule says anything else, or no rule
  -- matches, there are no redactions, and the verdict is what the rule says, or "deny".
  pub evaluate_redact :
      ((rule : CompiledRule) × Selected inp policy.rules rule × Redacts inp rule result)
      ⊎ (Unmatched inp policy.rules × (result.verdict ≡ "deny") × (result.redactions ≡ []))
  evaluate_redact = elim (evaluate-Decides py elapsed inp policy) [
    | inl (rule, s, same) ↦
        inl (rule, s, subst (Redacts inp rule) (sym same) (resolve_action-Redacts py inp rule))
    | inr (unmatched, same) ↦ inr (unmatched, ap (λ r. r.verdict) same, ap (λ r. r.redactions) same)
  ]
