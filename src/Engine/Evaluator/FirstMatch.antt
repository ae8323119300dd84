-- ===== src/Engine/Evaluator/FirstMatch.antt =====
-- Which rule decides in `evaluate` of src/edge/engine/evaluator.py.
use Prim.Native.Nat.{ℕ}
use Prim.Native.String.{String}
use mathlib.Core.Path.{◌≡◌, refl, sym, ap, ◌∙◌, subst}
use mathlib.Core.Logic.{◌⊎◌, inl, inr, ◌≢◌}
use mathlib.Core.Bool.{true, false}
use mathlib.Core.List.{List, [], ◌∷◌, ◌++◌, Memᴰ}
use mathlib.Core.List.Memᴰ
use native.Mathlib.Omega.{arith}
use text.Mathlib.TextEquality.{eq_iff}
use trustmodel_edge.Prelude.Tests.{Bool-cases}
use trustmodel_edge.Prelude.Lists.{All, filter, is_empty}
use trustmodel_edge.Value.{PyText}
use trustmodel_edge.Engine.Compiler.{CompiledRule, CompiledPolicy, base_action}
use trustmodel_edge.Engine.Evaluator.{
  EvaluationInput, EvaluationResult, matches, targets, targeted, resolve_action, default_deny,
  evaluate_rules, evaluate,
}

abbrev pub Unmatched : EvaluationInput → List CompiledRule → Type 0
Unmatched inp rules = All (λ r. matches r.pattern inp ≡ false) rules

-- The rule stands in the list, matches, and no rule in front of it matches.
pub record Selected (inp : EvaluationInput) (rules : List CompiledRule) (rule : CompiledRule)
    : Type 0 where
  pub before : List CompiledRule
  pub behind : List CompiledRule
  pub split : rules ≡ before ++ rule ∷ behind
  pub unmatched : Unmatched inp before
  pub matched : matches rule.pattern inp ≡ true

abbrev pub timed : ℕ → EvaluationResult → EvaluationResult
timed elapsed result = record result { latency_ms = elapsed }

module _ (py : PyText) (elapsed : ℕ) (inp : EvaluationInput) where
  -- What `evaluate` promises, with no loop.
  abbrev pub Decides : List CompiledRule → EvaluationResult → Type 0
  Decides rules result =
      ((rule : CompiledRule) × Selected inp rules rule
        × (result ≡ timed elapsed (resolve_action py rule inp)))
      ⊎ (Unmatched inp rules × (result ≡ default_deny elapsed))

  Decides-skip :
      (r : CompiledRule) (rs : List CompiledRule) (result : EvaluationResult)
      → matches r.pattern inp ≡ false
      → Decides rs result
      → Decides (r ∷ rs) result
  Decides-skip r rs result e (inl (rule, s, same)) =
      let found : Selected inp (r ∷ rs) rule = record {
        before = r ∷ s.before;
        behind = s.behind;
        split = ap (◌∷◌ r) s.split;
        unmatched = (e, s.unmatched);
        matched = s.matched;
      } in
      inl (rule, found, same)
  Decides-skip r rs result e (inr (nothing, same)) = inr ((e, nothing), same)

  evaluate_rules-skip :
      (r : CompiledRule) (rs : List CompiledRule)
      → matches r.pattern inp ≡ false
      → evaluate_rules py elapsed (r ∷ rs) inp ≡ evaluate_rules py elapsed rs inp
  unfolding evaluate_rules
  evaluate_rules-skip r rs e = rw e

  evaluate_rules-hit :
      (r : CompiledRule) (rs : List CompiledRule)
      → matches r.pattern inp ≡ true
      → evaluate_rules py elapsed (r ∷ rs) inp ≡ timed elapsed (resolve_action py r inp)
  unfolding evaluate_rules
  evaluate_rules-hit r rs e = rw e

  evaluate_rules-Decides :
      (rules : List CompiledRule) → Decides rules (evaluate_rules py elapsed rules inp)
  unfolding evaluate_rules
  evaluate_rules-Decides [] = inr (tt, refl)
  evaluate_rules-Decides (r ∷ rs) = elim (Bool-cases (matches r.pattern inp)) [
    | inl e ↦
        let found : Selected inp (r ∷ rs) r = record {
          before = [];
          behind = rs;
          split = refl;
          unmatched = tt;
          matched = e;
        } in
        inl (r, found, evaluate_rules-hit r rs e)
    | inr e ↦
        Decides-skip r rs _ e
          (subst (Decides rs) (sym (evaluate_rules-skip r rs e)) (evaluate_rules-Decides rs))
  ]

  -- The first matching rule of the policy decides, whatever stands behind it; if no rule matches
  -- the result is the fail-safe deny.
  pub evaluate-Decides :
      (policy : CompiledPolicy) → Decides policy.rules (evaluate py elapsed policy inp)
  unfolding evaluate
  evaluate-Decides policy = evaluate_rules-Decides policy.rules

pub Selected-Memᴰ :
    (inp : EvaluationInput) (rules : List CompiledRule) (rule : CompiledRule)
    → Selected inp rules rule
    → Memᴰ rule rules
Selected-Memᴰ inp rules rule s = rw s.split (Memᴰ.append_right s.before (Memᴰ.head refl))

-- The reasons for which a rule may let a call pass unchanged.
abbrev Permits : EvaluationInput → CompiledRule → Type 0
Permits inp rule =
    (base_action rule.action ≡ "allow")
    ⊎ ((base_action rule.action ≡ "redact") × (targeted rule inp ≡ []))

pub is_empty-eq-nil {ℓ} : {A : Type ℓ} (xs : List A) → is_empty xs ≡ true → xs ≡ []
is_empty-eq-nil [] h = refl
is_empty-eq-nil (x ∷ xs) h = cc

deny_ne_allow : ◌≢◌ {A = String} "deny" "allow"
deny_ne_allow = ground (arith, eq_iff "deny" "allow")

resolve_action-Permits :
    (py : PyText) (rule : CompiledRule) (inp : EvaluationInput)
    → (resolve_action py rule inp).verdict ≡ "allow"
    → Permits inp rule
unfolding resolve_action
resolve_action-Permits py rule inp h = ground (
  arith,
  eq_iff (base_action rule.action) "redact",
  is_empty-eq-nil (filter (targets inp.args) rule.redact_paths),
)

module _ (py : PyText) (elapsed : ℕ) (inp : EvaluationInput) (policy : CompiledPolicy) where
  -- Fail-safe: the verdict is "allow" only if some rule of the policy matches the call, and that
  -- rule says allow or is a redaction none of whose targets is among the arguments.
  pub evaluate_allow :
      (evaluate py elapsed policy inp).verdict ≡ "allow"
      → (rule : CompiledRule) × Memᴰ rule policy.rules
        × (matches rule.pattern inp ≡ true)
        × Permits inp rule
  evaluate_allow h = elim (evaluate-Decides py elapsed inp policy) [
    | inl (rule, s, same) ↦ (
      rule,
      Selected-Memᴰ inp policy.rules rule s,
      s.matched,
      resolve_action-Permits py rule inp (sym (ap (λ r. r.verdict) same) ∙ h),
    )
    | inr (_, same) ↦ absurd (deny_ne_allow (sym (ap (λ r. r.verdict) same) ∙ h))
  ]
