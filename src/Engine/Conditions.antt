-- ===== src/Engine/Conditions.antt =====
-- What the `when` of a rule asks for, read off the raw rule, and that compiling it and matching the
-- compiled pattern asks for just that (src/edge/engine/compiler.py, src/edge/engine/evaluator.py).
use Prim.Native.String.{String}
use mathlib.Core.Path.{◌≡◌, refl, ap, ◌∙◌}
use mathlib.Core.Logic.{inl, inr, ◌≢◌}
use mathlib.Core.Bool.{Bool, true, false, ◌&&◌, ◌||◌, not}
use mathlib.Core.Option.{Option, none, some}
use mathlib.Core.List.{List, [], ◌∷◌, ◌++◌}
use native.Mathlib.Omega.{arith}
use text.Mathlib.Text.{◌==◌}
use text.Mathlib.TextEquality.{eq_iff, codes_equal}
use trustmodel_edge.Prelude.Tests.{if◌then◌else◌, Option-cases}
use trustmodel_edge.Prelude.Lists.{All, all}
use trustmodel_edge.Prelude.Dict.{Dict, lookup, insert, has_key, keys, IsDistinct, lookup-insert}
use trustmodel_edge.Prelude.Text.{drop_prefix}
use trustmodel_edge.Value.{
  Value, null, bool, int, str, list, dict, PyText, str_of, truthy, or_null, is_true, value_eq,
}
use trustmodel_edge.Policy.Bundle.{PolicyRule}
use trustmodel_edge.Engine.Compiler.{
  Conditions, args_prefix, contains, set_add, read_condition, read_conditions, no_conditions,
  read_tool, read_subject_attr, compile_rule,
}
use trustmodel_edge.Engine.Evaluator.{
  EvaluationInput, tool_matches, arg_equal, subject_matches, matches,
}

-- One entry of `when`: "args.x": True asks that the argument x is given, "args.x": v that it equals
-- v; any other key is no condition on the arguments.
abbrev condition_holds : Dict Value → String × Value → Bool
condition_holds args (k, v) = elim (drop_prefix "args." k) [
  | none ↦ true
  | some key ↦ if is_true v then has_key key args else value_eq (or_null (lookup key args)) v
]

-- The tool that `when` names, if it names one: nothing, null and "*" stand for every tool.
abbrev pub tool_holds : PyText → Option Value → String → Bool
tool_holds py none tool = true
tool_holds py (some null) tool = true
tool_holds py (some (str s)) tool = s == "*" || s == tool
tool_holds py (some v) tool = str_of py v == tool

-- The subject has the attribute that `when` names, if it names one: nothing and a value that Python
-- takes for false, as the empty text, name none.
abbrev pub attribute_holds : PyText → Option Value → Option (Dict Value) → Bool
attribute_holds py none attrs = true
attribute_holds py (some v) (some attrs) = not (truthy v) || has_key (str_of py v) attrs
attribute_holds py (some v) none = not (truthy v)

-- The rule's conditions, one by one.
abbrev pub rule_holds : PyText → PolicyRule → EvaluationInput → Bool
rule_holds py raw inp =
    tool_holds py (lookup "tool" raw.when) inp.tool
    && (all (condition_holds inp.args) raw.when
        && attribute_holds py (lookup "subject_attr" raw.when) inp.subject_attrs)

-- Whether the conditions that have been read hold.
abbrev hold : Dict Value → Conditions → Bool
hold args c = all (λ k. has_key k args) c.present && all (arg_equal args) c.equals

all-concat {ℓ} :
    {A : Type ℓ} (p : A → Bool) (xs : List A) (a : A) → all p (xs ++ a ∷ []) ≡ (all p xs && p a)
all-concat p [] a = ground arith
all-concat p (x ∷ xs) a = ground (arith, all-concat p xs a)

all-contains :
    (p : String → Bool) (k : String) (ks : List String)
    → contains k ks ≡ true
    → all p ks ≡ (all p ks && p k)
unfolding contains
all-contains p k [] h = cc
all-contains p k (j ∷ js) h = ground (arith, eq_iff j k, all-contains p k js)

all-set_add :
    (p : String → Bool) (k : String) (ks : List String) → all p (set_add k ks) ≡ (all p ks && p k)
unfolding set_add
all-set_add p k ks = ground (arith, all-contains p k ks, all-concat p ks k)

all-insert :
    (p : String × Value → Bool) (k : String) (v : Value) (d : Dict Value)
    → lookup k d ≡ none
    → all p (insert k v d) ≡ (all p d && p (k, v))
unfolding lookup insert
all-insert p k v [] h = ground arith
all-insert p k v ((j, w) ∷ d) h = ground (arith, eq_iff j k, all-insert p k v d)

-- Keys with the prefix are told apart by what follows it.
drop_prefix-injective :
    (p s t : String) (x : String) → drop_prefix p s ≡ some x → drop_prefix p t ≡ some x → s ≡ t
unfolding drop_prefix
drop_prefix-injective String.[] s t x h k = cc
drop_prefix-injective (String.◌∷◌ c p) String.[] t x h k = cc
drop_prefix-injective (String.◌∷◌ c p) (String.◌∷◌ d s) String.[] x h k = cc
drop_prefix-injective (String.◌∷◌ c p) (String.◌∷◌ d s) (String.◌∷◌ e t) x h k =
    ground (arith, drop_prefix-injective p s t x, codes_equal c d, codes_equal c e)

-- No key that is still to be read has been read as an equality.
abbrev IsFresh : Conditions → List String → Type 0
IsFresh c ks =
    All (λ k. (key : String) → drop_prefix args_prefix k ≡ some key → lookup key c.equals ≡ none) ks

and-true : (b : Bool) → b ≡ (b && true)
and-true true = refl
and-true false = refl

and_assoc : (a b c : Bool) → (a && b && c) ≡ (a && (b && c))
and_assoc true b c = refl
and_assoc false b c = refl

arg_equal-pair :
    (args : Dict Value) (key : String) (v : Value)
    → arg_equal args (key, v) ≡ value_eq (or_null (lookup key args)) v
unfolding arg_equal
arg_equal-pair args key v = refl

condition_skipped :
    (args : Dict Value) (k : String) (v : Value)
    → drop_prefix "args." k ≡ none
    → condition_holds args (k, v) ≡ true
condition_skipped args k v e = rw (e, condition_holds)

condition_read :
    (args : Dict Value) (k : String) (v : Value) (key : String)
    → drop_prefix "args." k ≡ some key
    → condition_holds args (k, v)
      ≡ (if is_true v then has_key key args else value_eq (or_null (lookup key args)) v)
condition_read args k v key e = rw (e, condition_holds)

hold-read_condition :
    (args : Dict Value) (c : Conditions) (k : String) (v : Value)
    → ((key : String) → drop_prefix args_prefix k ≡ some key → lookup key c.equals ≡ none)
    → hold args (read_condition c k v) ≡ (hold args c && condition_holds args (k, v))
unfolding read_condition
hold-read_condition args c k v fresh = elim (Option-cases (drop_prefix args_prefix k)) [
  | inl e ↦ rw (e, condition_skipped args k v e) (and-true (hold args c))
  | inr (key, e) ↦
      rw (e, condition_read args k v key e)
        (ground (
          arith,
          all-set_add (λ j. has_key j args) key c.present,
          all-insert (arg_equal args) key v c.equals (fresh key e),
          arg_equal-pair args key v,
        ))
]

read_condition-fresh :
    (c : Conditions) (k : String) (v : Value) (j key : String)
    → j ≢ k
    → drop_prefix args_prefix j ≡ some key
    → lookup key c.equals ≡ none
    → lookup key (read_condition c k v).equals ≡ none
unfolding read_condition
read_condition-fresh c k v j key ne e fresh = elim (Option-cases (drop_prefix args_prefix k)) [
  | inl e' ↦ rw e' fresh
  | inr (key', e') ↦ rw e' (
      ground (
        arith,
        lookup-insert key' key v c.equals,
        eq_iff key' key,
        drop_prefix-injective args_prefix j k key,
      ))
]

IsFresh-read_condition :
    (c : Conditions) (k : String) (v : Value) (ks : List String)
    → All (λ j. j ≢ k) ks
    → IsFresh c ks
    → IsFresh (read_condition c k v) ks
IsFresh-read_condition c k v [] _ _ = tt
IsFresh-read_condition c k v (j ∷ js) (ne, nes) (f, fs) = (
  λ key e. read_condition-fresh c k v j key ne e (f key e),
  IsFresh-read_condition c k v js nes fs,
)

hold-read_conditions :
    (args : Dict Value) (c : Conditions) (d : Dict Value)
    → IsDistinct (keys d)
    → IsFresh c (keys d)
    → hold args (read_conditions c d) ≡ (hold args c && all (condition_holds args) d)
unfolding read_conditions
hold-read_conditions args c [] _ _ = and-true (hold args c)
hold-read_conditions args c ((k, v) ∷ d) (ne, distinct) (f, fs) =
    hold-read_conditions args (read_condition c k v) d distinct
      (IsFresh-read_condition c k v (keys d) ne fs)
    ∙ ap (λ b. b && all (condition_holds args) d) (hold-read_condition args c k v f)
    ∙ and_assoc (hold args c) (condition_holds args (k, v)) (all (condition_holds args) d)

IsFresh-no_conditions : (ks : List String) → IsFresh no_conditions ks
unfolding lookup
IsFresh-no_conditions [] = tt
IsFresh-no_conditions (k ∷ ks) = (λ _ _. refl, IsFresh-no_conditions ks)

tool_matches-read_tool :
    (py : PyText) (o : Option Value) (tool : String)
    → tool_matches (read_tool py (or_null o)) tool ≡ tool_holds py o tool
unfolding tool_matches
tool_matches-read_tool py none tool = refl
tool_matches-read_tool py (some null) tool = refl
tool_matches-read_tool py (some (bool b)) tool = refl
tool_matches-read_tool py (some (int n)) tool = refl
tool_matches-read_tool py (some (str s)) tool = ground arith
tool_matches-read_tool py (some (list vs)) tool = refl
tool_matches-read_tool py (some (dict fs)) tool = refl

subject_matches-read_subject_attr :
    (py : PyText) (o : Option Value) (attrs : Option (Dict Value))
    → subject_matches (read_subject_attr py (or_null o)) attrs ≡ attribute_holds py o attrs
unfolding subject_matches
subject_matches-read_subject_attr py none attrs = refl
subject_matches-read_subject_attr py (some v) none = ground arith
subject_matches-read_subject_attr py (some v) (some attrs) = ground arith

-- For a rule whose conditions have distinct keys, as the keys of a dict are, the compiled pattern
-- matches a call exactly when the rule's conditions hold of it one by one: the call is of the tool
-- that the rule names, unless that is "*" or none; each argument that a key under "args." names is
-- given, if the value is True, and else equals the value; and the subject has the attribute that the
-- rule names, if it names one.
pub matches-compile_rule :
    (py : PyText) (raw : PolicyRule) (inp : EvaluationInput)
    → IsDistinct (keys raw.when)
    → matches (compile_rule py raw).pattern inp ≡ rule_holds py raw inp
unfolding compile_rule matches
matches-compile_rule py raw inp distinct = ground (
  arith,
  tool_matches-read_tool py (lookup "tool" raw.when) inp.tool,
  subject_matches-read_subject_attr py (lookup "subject_attr" raw.when) inp.subject_attrs,
  hold-read_conditions inp.args no_conditions raw.when distinct
      (IsFresh-no_conditions (keys raw.when)),
)
