-- ===== src/Engine/Compiler/Ranked.antt =====
-- Which rule `compile_policy` of src/edge/engine/compiler.py puts in front of which.
use Prim.Native.Nat.{◌+◌, ◌<◌}
use Prim.Native.String.{String}
use mathlib.Core.Path.{◌≡◌, refl}
use mathlib.Core.Logic.{◌⊎◌, inl, inr}
use mathlib.Core.Bool.{Bool, true, false}
use mathlib.Core.List.{List, [], ◌∷◌, map, Perm}
use native.Mathlib.Omega.{arith}
use text.Mathlib.Text.{◌==◌}
use text.Mathlib.TextEquality.{eq_iff}
use trustmodel_edge.Prelude.Tests.{Bool-cases}
use trustmodel_edge.Prelude.Words.{lacks}
use trustmodel_edge.Prelude.Int.{ℤ, pos_part, neg_part}
use trustmodel_edge.Prelude.Lists.{All, All-map, filter}
use trustmodel_edge.Prelude.Sort.{IsSorted, sort_by-perm, filter-sort_by}
use trustmodel_edge.Value.{PyText}
use trustmodel_edge.Policy.Bundle.{PolicyRule}
use trustmodel_edge.Engine.Compiler.{
  CompiledRule, CompiledPolicy, base_action, action_order, rule_order, rule_le, compile_rule,
  compile_policy,
}
use trustmodel_edge.Engine.Compiler.Actions.{Acts, base_action-Acts, Acts-base_action}
use trustmodel_edge.Engine.Compiler.Order.{compile_policy-IsSorted}

-- The priorities as integers, less and equal.
abbrev pub Below : ℤ → ℤ → Type 0
Below a b = pos_part a + neg_part b < pos_part b + neg_part a

abbrev pub Level : ℤ → ℤ → Type 0
Level a b = pos_part a + neg_part b ≡ pos_part b + neg_part a

-- The first rule must stand before the second: its priority has the lower number, or both have the
-- same and it denies and the other does not, or it redacts and the other neither denies nor redacts,
-- or it allows and the other does none of the three.
pub data Outranks (r s : CompiledRule) : Type 0 where
  prior : Below r.priority s.priority → Outranks r s
  denies :
      Level r.priority s.priority → Acts "deny" r.action → ¬ Acts "deny" s.action → Outranks r s
  redacts :
      Level r.priority s.priority
      → Acts "redact" r.action
      → ¬ Acts "deny" s.action
      → ¬ Acts "redact" s.action
      → Outranks r s
  allows :
      Level r.priority s.priority
      → Acts "allow" r.action
      → ¬ Acts "deny" s.action
      → ¬ Acts "redact" s.action
      → ¬ Acts "allow" s.action
      → Outranks r s

says_not : (kind action : String) → ¬ Acts kind action → (base_action action == kind) ≡ false
says_not kind action h = elim (Bool-cases (base_action action == kind)) [
  | inl e ↦ absurd (h (base_action-Acts action kind ((eq_iff (base_action action) kind).0 e)))
  | inr e ↦ e
]

says :
    (kind action : String)
    → lacks b':' kind ≡ true
    → Acts kind action
    → (base_action action == kind) ≡ true
says kind action l h = (eq_iff (base_action action) kind).1 (Acts-base_action action kind l h)

kind_excluded :
    (kind action : String)
    → lacks b':' kind ≡ true
    → (base_action action == kind) ≡ false
    → ¬ Acts kind action
kind_excluded kind action l e h = absurd (cc (e, says kind action l h))

kind_read : (kind action : String) → (base_action action == kind) ≡ true → Acts kind action
kind_read kind action e = base_action-Acts action kind ((eq_iff (base_action action) kind).0 e)

-- Only a rule that must stand before another sorts strictly before it.
pub Outranks-rule_le : (r s : CompiledRule) → Outranks r s → rule_le s r ≡ false
unfolding rule_le rule_order action_order
Outranks-rule_le r s (prior lower) = ground arith
Outranks-rule_le r s (denies level d nd) =
    ground (arith, says "deny" r.action refl d, says_not "deny" s.action nd)
Outranks-rule_le r s (redacts level a nd nr) = ground (
  arith,
  (eq_iff (base_action r.action) "redact").0 (says "redact" r.action refl a),
  says "redact" r.action refl a,
  says_not "deny" s.action nd,
  says_not "redact" s.action nr,
)
Outranks-rule_le r s (allows level a nd nr na) = ground (
  arith,
  (eq_iff (base_action r.action) "allow").0 (says "allow" r.action refl a),
  says "allow" r.action refl a,
  says_not "deny" s.action nd,
  says_not "redact" s.action nr,
  says_not "allow" s.action na,
)

strictly :
    (r s : CompiledRule)
    → rule_le s r ≡ false
    → Below r.priority s.priority ⊎ (Level r.priority s.priority × (rule_order r < rule_order s))
unfolding rule_le
strictly r s h = ground arith

module _ (r s : CompiledRule) where
  abbrev is_kind : String → CompiledRule → Bool
  is_kind kind rule = base_action rule.action == kind

  by_action : Level r.priority s.priority → rule_order r < rule_order s → Outranks r s
  unfolding rule_order action_order
  by_action level lt = elim (Bool-cases (is_kind "deny" r)) [
    | inl d ↦
        denies level (kind_read "deny" r.action d)
          (kind_excluded "deny" s.action refl (ground arith))
    | inr nd ↦ elim (Bool-cases (is_kind "redact" r)) [
      | inl a ↦
          redacts level (kind_read "redact" r.action a)
            (kind_excluded "deny" s.action refl (ground arith))
            (kind_excluded "redact" s.action refl (ground arith))
      | inr nr ↦ elim (Bool-cases (is_kind "allow" r)) [
        | inl b ↦
            allows level (kind_read "allow" r.action b)
              (kind_excluded "deny" s.action refl (ground arith))
              (kind_excluded "redact" s.action refl (ground arith))
              (kind_excluded "allow" s.action refl (ground arith))
        | inr nb ↦ absurd (ground arith)
      ]
    ]
  ]

  rule_le-Outranks : rule_le s r ≡ false → Outranks r s
  rule_le-Outranks h = elim (strictly r s h) [
    | inl lower ↦ prior lower
    | inr (level, lt) ↦ by_action level lt
  ]

-- No rule outranks one that stands before it.
abbrev pub IsRanked : List CompiledRule → Type 0
IsRanked [] = Unit
IsRanked (r ∷ rs) = All (λ s. ¬ Outranks s r) rs × IsRanked rs

sorted-IsRanked : (rs : List CompiledRule) → IsSorted rule_le rs → IsRanked rs
sorted-IsRanked [] _ = tt
sorted-IsRanked (r ∷ rs) (h, k) =
    (All-map (λ s le out. absurd (cc (le, Outranks-rule_le s r out))) rs h, sorted-IsRanked rs k)

not_outranked : (r s : CompiledRule) → ¬ Outranks s r → rule_le r s ≡ true
not_outranked r s h = elim (Bool-cases (rule_le r s)) [
  | inl e ↦ e
  | inr e ↦ absurd (h (rule_le-Outranks s r e))
]

module _ (py : PyText) (policy_id name version : String) (rules : List PolicyRule)
    (tags : List String) (together : CompiledRule → Bool)
    (level : (r s : CompiledRule) → together r ≡ true → together s ≡ true → ¬ Outranks s r) where
  abbrev compiled : CompiledPolicy
  compiled = compile_policy py policy_id name version rules tags

  -- The compiled rules are the raw rules, each compiled once and none dropped. No rule outranks one
  -- that stands before it: they ascend in priority, and at one priority the rules that deny stand
  -- before those that redact, these before those that allow, and these before all others. Rules of
  -- which none outranks another keep the order of the bundle.
  pub compile_policy-IsRanked :
      IsRanked compiled.rules
      × Perm compiled.rules (map (compile_rule py) rules)
      × (filter together compiled.rules ≡ filter together (map (compile_rule py) rules))
  unfolding compile_policy
  compile_policy-IsRanked = (
    sorted-IsRanked compiled.rules (compile_policy-IsSorted py policy_id name version rules tags),
    sort_by-perm rule_le (map (compile_rule py) rules),
    filter-sort_by rule_le together (λ r s h k. not_outranked r s (level r s h k))
        (map (compile_rule py) rules),
  )
