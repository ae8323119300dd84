-- ===== src/Prelude/Lists.antt =====
-- Lists measured by native numbers, Boolean filters and predicates by recursion.
use Prim.Native.Nat.{ℕ, zero, suc, ◌+◌, ◌-◌, ◌<◌, min}
use mathlib.Core.Path.{◌≡◌, refl, ap, subst}
use mathlib.Core.Logic.{inl, inr}
use mathlib.Core.Bool.{Bool, true, false, ◌&&◌}
use mathlib.Core.List.{List, [], ◌∷◌, ◌++◌, map, Memᴰ}
use mathlib.Core.List.Memᴰ
use native.Mathlib.Omega.{arith}
use trustmodel_edge.Prelude.Tests.{if◌then◌else◌, Bool-cases}

module _ {ℓ} {A : Type ℓ} where
  abbrev pub length : List A → ℕ
  length [] = 0
  length (x ∷ xs) = suc (length xs)

  abbrev pub take : ℕ → List A → List A
  take zero xs = []
  take (suc n) [] = []
  take (suc n) (x ∷ xs) = x ∷ take n xs

  abbrev pub drop : ℕ → List A → List A
  drop zero xs = xs
  drop (suc n) [] = []
  drop (suc n) (x ∷ xs) = drop n xs

  abbrev pub filter : (A → Bool) → List A → List A
  filter p [] = []
  filter p (x ∷ xs) = if p x then x ∷ filter p xs else filter p xs

  -- `all(p(x) for x in xs)`
  abbrev pub all : (A → Bool) → List A → Bool
  all p [] = true
  all p (x ∷ xs) = p x && all p xs

  -- `not xs`
  abbrev pub is_empty : List A → Bool
  is_empty [] = true
  is_empty (x ∷ xs) = false

  pub length-append : (xs ys : List A) → length (xs ++ ys) ≡ length xs + length ys
  length-append [] ys = omega arith
  length-append (x ∷ xs) ys = omega (arith, length-append xs ys)

  pub length-take : (n : ℕ) (xs : List A) → length (take n xs) ≡ min n (length xs)
  length-take zero xs = omega arith
  length-take (suc n) [] = omega arith
  length-take (suc n) (x ∷ xs) = omega (arith, length-take n xs)

  pub take-append-drop : (n : ℕ) (xs : List A) → take n xs ++ drop n xs ≡ xs
  take-append-drop zero xs = refl
  take-append-drop (suc n) [] = refl
  take-append-drop (suc n) (x ∷ xs) = rw (take-append-drop n xs)

  -- The first `n` elements, or all, stay the first ones of a longer list.
  pub take-prefix : (n : ℕ) (xs ys : List A) → take (length (take n xs)) (xs ++ ys) ≡ take n xs
  take-prefix zero xs ys = refl
  take-prefix (suc n) [] ys = refl
  take-prefix (suc n) (x ∷ xs) ys = ap (◌∷◌ x) (take-prefix n xs ys)

  pub take_again : (n : ℕ) (xs : List A) → take (length (take n xs)) xs ≡ take n xs
  take_again zero xs = refl
  take_again (suc n) [] = refl
  take_again (suc n) (x ∷ xs) = rw (take_again n xs)

  pub drop-prefix :
      (n : ℕ) (xs ys : List A) → drop (length (take n xs)) (xs ++ ys) ≡ drop n xs ++ ys
  drop-prefix zero xs ys = refl
  drop-prefix (suc n) [] ys = refl
  drop-prefix (suc n) (x ∷ xs) ys = drop-prefix n xs ys

module _ {ℓ κ} {A : Type ℓ} {B : Type κ} where
  pub length-map : (f : A → B) (xs : List A) → length (map f xs) ≡ length xs
  length-map f [] = refl
  length-map f (x ∷ xs) = ap suc (length-map f xs)

  pub map-take : (f : A → B) (n : ℕ) (xs : List A) → map f (take n xs) ≡ take n (map f xs)
  map-take f zero xs = refl
  map-take f (suc n) [] = refl
  map-take f (suc n) (x ∷ xs) = ap (◌∷◌ (f x)) (map-take f n xs)

  pub map-drop : (f : A → B) (n : ℕ) (xs : List A) → map f (drop n xs) ≡ drop n (map f xs)
  map-drop f zero xs = refl
  map-drop f (suc n) [] = refl
  map-drop f (suc n) (x ∷ xs) = map-drop f n xs

pub length-drop {ℓ} : {A : Type ℓ} (n : ℕ) (xs : List A) → length (drop n xs) ≡ length xs - n
length-drop zero xs = omega arith
length-drop (suc n) [] = omega arith
length-drop (suc n) (x ∷ xs) = omega (arith, length-drop n xs)

pub is_empty-length {ℓ} : {A : Type ℓ} (xs : List A) → is_empty xs ≡ false → 0 < length xs
is_empty-length [] h = cc
is_empty-length (x ∷ xs) h = omega arith

pub empty_length {ℓ} : {A : Type ℓ} (xs : List A) → is_empty xs ≡ true → length xs ≡ 0
empty_length [] h = refl
empty_length (x ∷ xs) h = cc

pub length-zero {ℓ} : {A : Type ℓ} (xs : List A) → length xs ≡ 0 → xs ≡ []
length-zero [] h = refl
length-zero (x ∷ xs) h = absurd (omega arith)

module _ {ℓ κ} {A : Type ℓ} (P : A → Type κ) where
  abbrev pub All : List A → Type κ
  All [] = Unit
  All (x ∷ xs) = P x × All xs

  pub All-append : (xs ys : List A) → All xs → All ys → All (xs ++ ys)
  All-append [] ys _ k = k
  All-append (x ∷ xs) ys (p, h) k = (p, All-append xs ys h k)

  pub All-filter : (p : A → Bool) (xs : List A) → All xs → All (filter p xs)
  All-filter p [] _ = tt
  All-filter p (x ∷ xs) (h, hs) = elim (Bool-cases (p x)) [
    | inl e ↦ rw e (h, All-filter p xs hs)
    | inr e ↦ rw e (All-filter p xs hs)
  ]

  pub All-Memᴰ : {x : A} {xs : List A} → Memᴰ x xs → All xs → P x
  All-Memᴰ (Memᴰ.head e) (p, _) = rw e p
  All-Memᴰ (Memᴰ.tail m) (_, h) = All-Memᴰ m h

module _ {ℓ κ μ} {A : Type ℓ} {P : A → Type κ} {Q : A → Type μ} where
  pub All-map : ((x : A) → P x → Q x) → (xs : List A) → All P xs → All Q xs
  All-map f [] _ = tt
  All-map f (x ∷ xs) (p, h) = (f x p, All-map f xs h)

pub All-of_map {ℓ κ μ} :
    {A : Type ℓ} {B : Type κ} (P : B → Type μ) (f : A → B) (xs : List A)
    → All (λ x. P (f x)) xs
    → All P (map f xs)
All-of_map P f [] _ = tt
All-of_map P f (x ∷ xs) (p, h) = (p, All-of_map P f xs h)

module _ {ℓ κ} {A : Type ℓ} (P : A → Type κ) (p : A → Bool) where
  pub All-filter_of : (xs : List A) → All (λ x. p x ≡ true → P x) xs → All P (filter p xs)
  All-filter_of [] _ = tt
  All-filter_of (x ∷ xs) (f, fs) = elim (Bool-cases (p x)) [
    | inl e ↦ rw e (f e, All-filter_of xs fs)
    | inr e ↦ rw e (All-filter_of xs fs)
  ]

  All-keep : (x : A) (xs : List A) → p x ≡ true → All P (filter p (x ∷ xs)) → P x
  All-keep x xs e h = (subst (λ b. All P (if b then x ∷ filter p xs else filter p xs)) e h).0

  All-rest : (x : A) (xs : List A) → All P (filter p (x ∷ xs)) → All P (filter p xs)
  All-rest x xs h = elim (Bool-cases (p x)) [
    | inl e ↦ (subst (λ b. All P (if b then x ∷ filter p xs else filter p xs)) e h).1
    | inr e ↦ subst (λ b. All P (if b then x ∷ filter p xs else filter p xs)) e h
  ]

  pub All-of_filter : (xs : List A) → All P (filter p xs) → All (λ x. p x ≡ true → P x) xs
  All-of_filter [] _ = tt
  All-of_filter (x ∷ xs) h = (λ e. All-keep x xs e h, All-of_filter xs (All-rest x xs h))

-- From a property of every member, one of the list.
pub All-of_Memᴰ {ℓ κ} :
    {A : Type ℓ} (P : A → Type κ) (xs : List A) → ((x : A) → Memᴰ x xs → P x) → All P xs
All-of_Memᴰ P [] f = tt
All-of_Memᴰ P (x ∷ xs) f = (f x (Memᴰ.head refl), All-of_Memᴰ P xs (λ y m. f y (Memᴰ.tail m)))

-- What a filter keeps satisfies its test.
pub filter_sound {ℓ} :
    {A : Type ℓ} (p : A → Bool) (xs : List A) → All (λ x. p x ≡ true) (filter p xs)
filter_sound p [] = tt
filter_sound p (x ∷ xs) = elim (Bool-cases (p x)) [
  | inl e ↦ rw e (e, filter_sound p xs)
  | inr e ↦ rw e (filter_sound p xs)
]

Memᴰ-filter {ℓ} :
    {A : Type ℓ} (p : A → Bool) {a : A} (xs : List A) → Memᴰ a (filter p xs) → Memᴰ a xs
Memᴰ-filter p [] m = m
Memᴰ-filter p (y ∷ ys) m = elim (Bool-cases (p y)) [
  | inl e ↦ elim (Memᴰ.cases_cons (rw e at m)) [
    | inl here ↦ Memᴰ.head here
    | inr later ↦ Memᴰ.tail (Memᴰ-filter p ys later)
  ]
  | inr e ↦ Memᴰ.tail (Memᴰ-filter p ys (rw e at m))
]
