-- ===== src/Prelude/Words.antt =====
-- The words of a text, and the texts that words join to.
use Prim.Native.Nat.{ℕ}
use Prim.Native.Char.{Char, code}
use Prim.Native.String
use Prim.Native.String.{String}
use mathlib.Core.Path.{◌≡◌, refl, sym, ap, ◌∙◌}
use mathlib.Core.Logic.{inl, inr}
use mathlib.Core.Bool.{Bool, true, false, not, ◌&&◌}
use mathlib.Core.Option.{some}
use mathlib.Core.List.{List, [], ◌∷◌}
use native.Mathlib.Omega.{arith}
use text.Mathlib.TextLemmas.{cons-append, nil-append, append-nil}
use trustmodel_edge.Prelude.Tests.{Bool-cases, nat_eq, if◌then◌else◌}
use trustmodel_edge.Prelude.Lists.{All}
use trustmodel_edge.Prelude.Text.{is_space, split_once, starts_word, words, push_front, join}

abbrev no_space : String → Bool
no_space String.[] = true
no_space (String.◌∷◌ c s) = not (is_space c) && no_space s

abbrev IsWord : String → Type 0
IsWord String.[] = (true ≡ false)
IsWord (String.◌∷◌ c s) = (is_space c ≡ false) × (no_space s ≡ true)

pub not-true : (b : Bool) → not b ≡ true → b ≡ false
not-true true h = sym h
not-true false h = refl

pub and-left : (a b : Bool) → (a && b) ≡ true → a ≡ true
and-left true b h = refl
and-left false b h = h

pub and-right : (a b : Bool) → (a && b) ≡ true → b ≡ true
and-right true b h = h
and-right false b h = absurd (cc)

push_front-IsWord :
    (c : Char) (ws : List String)
    → is_space c ≡ false
    → All IsWord ws
    → All IsWord (push_front c ws)
push_front-IsWord c [] e h = ((e, refl), tt)
push_front-IsWord c (String.[] ∷ ws) e (w, h) = absurd (cc)
push_front-IsWord c (String.◌∷◌ d s ∷ ws) e ((p, q), h) = ((e, rw (p, q)), h)

-- A word is not empty and has no white space.
pub words-IsWord : (s : String) → All IsWord (words s)
unfolding words
words-IsWord String.[] = tt
words-IsWord (String.◌∷◌ c s) = elim (Bool-cases (is_space c)) [
  | inl e ↦ rw (e, words) (words-IsWord s)
  | inr e ↦ elim (Bool-cases (starts_word s)) [
    | inl f ↦ rw (e, f, words) (push_front-IsWord c (words s) e (words-IsWord s))
    | inr f ↦ rw (e, f, words) ((e, refl), words-IsWord s)
  ]
]

cons-word :
    (c : Char) (s : String)
    → is_space c ≡ false
    → words (String.◌∷◌ c s)
      ≡ (if starts_word s then push_front c (words s) else String.◌∷◌ c "" ∷ words s)
unfolding words
cons-word c s e = rw (e, words)

-- A word in front of white space, or alone.
words-append :
    (w s : String) → IsWord w → starts_word s ≡ false → words (String.◌++◌ w s) ≡ w ∷ words s
unfolding words
words-append String.[] s h f = absurd (cc)
words-append (String.◌∷◌ c String.[]) s (e, h) f =
    rw (cons-append, nil-append) (cons-word c s e ∙ rw f)
words-append (String.◌∷◌ c (String.◌∷◌ d w)) s (e, h) f =
    let q = not-true (is_space d) (and-left (not (is_space d)) (no_space w) h) in
    let rest = words-append (String.◌∷◌ d w) s (q, and-right (not (is_space d)) (no_space w) h) f in
    rw (cons-append c (String.◌∷◌ d w) s)
      (cons-word c (String.◌++◌ (String.◌∷◌ d w) s) e ∙ rw (rest, cons-append d w s, q))

-- What was joined splits into the same words.
pub words-join : (ws : List String) → All IsWord ws → words (join " " ws) ≡ ws
unfolding join words
words-join [] h = refl
words-join (w ∷ []) (p, h) = ap words (sym (append-nil w)) ∙ words-append w "" p refl
words-join (w ∷ v ∷ ws) (p, h) =
    words-append w (String.◌++◌ " " (join " " (v ∷ ws))) p
      (rw (cons-append " " "" (join " " (v ∷ ws))))
    ∙ ap (◌∷◌ w) (rw (cons-append " " "" (join " " (v ∷ ws)), nil-append) (words-join (v ∷ ws) h))

abbrev pub lacks : ℕ → String → Bool
lacks sep String.[] = true
lacks sep (String.◌∷◌ c s) = not (nat_eq (code c) sep) && lacks sep s

nat_eq_refl : (n : ℕ) → nat_eq n n ≡ true
nat_eq_refl n = ground arith

-- The part before the first separator.
pub split_once-append :
    (sep : Char) (a s : String)
    → lacks (code sep) a ≡ true
    → split_once (code sep) (String.◌++◌ a (String.◌∷◌ sep s)) ≡ (a, some s)
unfolding split_once
split_once-append sep String.[] s h =
    rw (nil-append (String.◌∷◌ sep s), nat_eq_refl (code sep), split_once)
split_once-append sep (String.◌∷◌ c a) s h =
    let rest = split_once-append sep a s (and-right (not (nat_eq (code c) (code sep))) _ h) in
    let other = not-true _ (and-left (not (nat_eq (code c) (code sep))) _ h) in
    rw (cons-append c a (String.◌∷◌ sep s), other, rest, split_once)
