-- ===== src/Prelude/Prefix.antt =====
-- What follows a prefix of a text, and what stands around a separator.
use Prim.Native.Nat.{ℕ}
use Prim.Native.Char.{Char, code}
use Prim.Native.String
use Prim.Native.String.{String}
use mathlib.Core.Path.{◌≡◌, refl, sym, ap, ◌∙◌, subst}
use mathlib.Core.Logic.{◌⊎◌, inl, inr}
use mathlib.Core.Bool.{true, not}
use mathlib.Core.Option.{none, some}
use native.Mathlib.Omega.{arith}
use text.Mathlib.TextEquality.{codes_equal}
use text.Mathlib.TextLemmas.{cons-append, nil-append}
use trustmodel_edge.Prelude.Tests.{nat_eq, Bool-cases}
use trustmodel_edge.Prelude.Text.{drop_prefix, split_once}
use trustmodel_edge.Prelude.Words.{not-true, and-left, and-right, lacks, split_once-append}

nat_eq_refl : (n : ℕ) → nat_eq n n ≡ true
nat_eq_refl n = ground arith

pub drop_prefix-append : (p s : String) → drop_prefix p (String.◌++◌ p s) ≡ some s
unfolding drop_prefix
drop_prefix-append String.[] s = rw (nil-append s, drop_prefix) refl
drop_prefix-append (String.◌∷◌ c p) s =
    rw (cons-append c p s, nat_eq_refl (code c), drop_prefix) (drop_prefix-append p s)

same_code : (c d : Char) → nat_eq (code c) (code d) ≡ true → c ≡ d
same_code c d h = ground (arith, codes_equal c d)

pub drop_prefix-eq : (p s x : String) → drop_prefix p s ≡ some x → s ≡ String.◌++◌ p x
unfolding drop_prefix
drop_prefix-eq String.[] s x h = cc (nil-append x)
drop_prefix-eq (String.◌∷◌ c p) String.[] x h = absurd (cc)
drop_prefix-eq (String.◌∷◌ c p) (String.◌∷◌ d s) x h =
    elim (Bool-cases (nat_eq (code c) (code d))) [
      | inl e ↦
          ap (λ (k : Char). String.◌∷◌ k s) (sym (same_code c d e))
          ∙ ap (String.◌∷◌ c) (drop_prefix-eq p s x (rw e at h))
          ∙ sym (cons-append c p x)
      | inr e ↦ absurd (cc (rw e at h))
    ]

-- A text is what stands before its first separator, or that, the separator and a rest.
abbrev pub Begins : ℕ → String → String → Type 0
Begins sep a s =
    (s ≡ a)
    ⊎ ((d : Char) × (rest : String) × (code d ≡ sep) × (s ≡ String.◌++◌ a (String.◌∷◌ d rest)))

Begins-cons :
    (sep : ℕ) (c : Char) (a s : String)
    → Begins sep a s
    → Begins sep (String.◌∷◌ c a) (String.◌∷◌ c s)
Begins-cons sep c a s (inl e) = inl (ap (String.◌∷◌ c) e)
Begins-cons sep c a s (inr (d, rest, same, e)) =
    inr (d, rest, same, ap (String.◌∷◌ c) e ∙ sym (cons-append c a (String.◌∷◌ d rest)))

pub split_once-Begins : (sep : ℕ) (s : String) → Begins sep (split_once sep s).0 s
unfolding split_once
split_once-Begins sep String.[] = inl refl
split_once-Begins sep (String.◌∷◌ c s) = elim (Bool-cases (nat_eq (code c) sep)) [
  | inl e ↦ rw (e, split_once) (inr (c, s, ground arith, sym (nil-append (String.◌∷◌ c s))))
  | inr e ↦ rw (e, split_once) (Begins-cons sep c (split_once sep s).0 s (split_once-Begins sep s))
]

split_once_whole : (sep : ℕ) (a : String) → lacks sep a ≡ true → split_once sep a ≡ (a, none)
unfolding split_once
split_once_whole sep String.[] h = refl
split_once_whole sep (String.◌∷◌ c a) h =
    let other = not-true _ (and-left (not (nat_eq (code c) sep)) _ h) in
    let rest = split_once_whole sep a (and-right (not (nat_eq (code c) sep)) _ h) in
    rw (other, rest, split_once) refl

-- A text that begins so is split there.
pub Begins-split_once :
    (sep : ℕ) (a s : String) → lacks sep a ≡ true → Begins sep a s → (split_once sep s).0 ≡ a
Begins-split_once sep a s h (inl e) = rw e (ap (λ r. r.0) (split_once_whole sep a h))
Begins-split_once sep a s h (inr (d, rest, same, e)) =
    ap (λ (t : String). (split_once sep t).0) e
    ∙ subst (λ (n : ℕ). lacks n a ≡ true → (split_once n (String.◌++◌ a (String.◌∷◌ d rest))).0 ≡ a)
        same (λ l. ap (λ r. r.0) (split_once-append d a rest l)) h
