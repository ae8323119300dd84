-- ===== src/Policy/Cache/Named.antt =====
-- The policy that a name finds in what src/edge/policy/cache.py writes and reads, and its list of names.
use Prim.Native.String.{String}
use mathlib.Core.Path.{◌≡◌, refl, sym, ap, ◌∙◌, subst}
use mathlib.Core.Logic.{◌⊎◌, inl, inr}
use mathlib.Core.Bool.{true}
use mathlib.Core.Option.{some}
use mathlib.Core.List.{List, [], ◌∷◌, Memᴰ}
use native.Mathlib.Omega.{arith}
use text.Mathlib.Text.{◌==◌}
use text.Mathlib.TextEquality.{eq_iff}
use trustmodel_edge.Prelude.Tests.{Bool-cases, is_some}
use trustmodel_edge.Prelude.Lists.{All}
use trustmodel_edge.Prelude.Sort.{sort_by-Memᴰ, sort_by-All}
use trustmodel_edge.Policy.Bundle.{EdgePolicy}
use trustmodel_edge.Policy.Disk.{policy_names, sorted_names}
use trustmodel_edge.Engine.Compiler.{contains}
use trustmodel_edge.Policy.Cache.Reads.{last_named}

last_named-cons :
    (n : String) (p : EdgePolicy) (ps : List EdgePolicy) (q : EdgePolicy)
    → last_named n (p ∷ ps) ≡ some q
    → (last_named n ps ≡ some q) ⊎ ((p ≡ q) × (p.bundle.name ≡ n))
last_named-cons n p ps q e = ground (arith, eq_iff p.bundle.name n)

-- What holds of all policies holds of the one that is found, which has the name.
pub All-last_named :
    (P : EdgePolicy → Type 0) (n : String) (ps : List EdgePolicy) (q : EdgePolicy)
    → All P ps
    → last_named n ps ≡ some q
    → P q × (q.bundle.name ≡ n)
All-last_named P n [] q _ e = cc
All-last_named P n (p ∷ ps) q (h, hs) e = elim (last_named-cons n p ps q e) [
  | inl e' ↦ All-last_named P n ps q hs e'
  | inr (same, name) ↦ (subst P same h, ap (λ r. r.bundle.name) (sym same) ∙ name)
]

pub last_named_of_contains :
    (n : String) (ps : List EdgePolicy) → contains n (policy_names ps) ≡ is_some (last_named n ps)
unfolding contains
last_named_of_contains n [] = refl
last_named_of_contains n (p ∷ ps) = ground (arith, last_named_of_contains n ps)

contains→Memᴰ : (n : String) (ns : List String) → contains n ns ≡ true → Memᴰ n ns
unfolding contains
contains→Memᴰ n [] h = cc
contains→Memᴰ n (j ∷ js) h = elim (Bool-cases (j == n)) [
  | inl e ↦ Memᴰ.head (sym ((eq_iff j n).0 e))
  | inr e ↦ Memᴰ.tail (contains→Memᴰ n js (ground arith))
]

pub Memᴰ→contains : (n : String) (ns : List String) → Memᴰ n ns → contains n ns ≡ true
unfolding contains
Memᴰ→contains n [] m = elim m [ ]
Memᴰ→contains n (j ∷ js) (Memᴰ.head e) = ground (arith, eq_iff j n)
Memᴰ→contains n (j ∷ js) (Memᴰ.tail m) = ground (arith, Memᴰ→contains n js m)

pub contains-sorted_names :
    (n : String) (ns : List String) → contains n ns ≡ true → contains n (sorted_names ns) ≡ true
unfolding sorted_names
contains-sorted_names n ns h = Memᴰ→contains n _ (sort_by-Memᴰ _ ns (contains→Memᴰ n ns h))

pub sorted_names-All : (P : String → Type 0) (ns : List String) → All P ns → All P (sorted_names ns)
unfolding sorted_names
sorted_names-All P ns h = sort_by-All _ P ns h
