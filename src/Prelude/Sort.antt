-- ===== src/Prelude/Sort.antt =====
-- Python's `sorted` and `list.sort`: a stable sort by a Boolean order.
use mathlib.Core.Path.{◌≡◌, refl, ap, ◌∙◌}
use mathlib.Core.Logic.{inl, inr}
use mathlib.Core.Bool.{Bool, true, false}
use mathlib.Core.List.{List, [], ◌∷◌, Perm, Memᴰ}
use mathlib.Core.List.Perm
use native.Mathlib.Omega.{arith}
use trustmodel_edge.Prelude.Tests.{if◌then◌else◌, Bool-cases}
use trustmodel_edge.Prelude.Lists.{All, All-map, filter}

module _ {ℓ} {A : Type ℓ} (le : A → A → Bool) where
  -- An element goes in front of its equals: those stand behind it in the input.
  pub insert_sorted : A → List A → List A
  insert_sorted x [] = x ∷ []
  insert_sorted x (y ∷ ys) = if le x y then x ∷ y ∷ ys else y ∷ insert_sorted x ys

  unfoldable pub sort_by : List A → List A
  unfolding insert_sorted
  sort_by [] = []
  sort_by (x ∷ xs) = insert_sorted x (sort_by xs)

  -- Each element is at most all behind it.
  abbrev pub IsSorted : List A → Type 0
  IsSorted [] = Unit
  IsSorted (x ∷ xs) = All (λ y. le x y ≡ true) xs × IsSorted xs

  insert_sorted-perm : (x : A) (xs : List A) → Perm (insert_sorted x xs) (x ∷ xs)
  unfolding insert_sorted
  insert_sorted-perm x [] = Perm.rfl
  insert_sorted-perm x (y ∷ ys) = elim (Bool-cases (le x y)) [
    | inl e ↦ rw e Perm.rfl
    | inr e ↦ rw e (Perm.trans (Perm.cons y (insert_sorted-perm x ys)) (Perm.swap x y ys))
  ]

  pub sort_by-perm : (xs : List A) → Perm (sort_by xs) xs
  unfolding sort_by
  sort_by-perm [] = Perm.rfl
  sort_by-perm (x ∷ xs) =
      Perm.trans (insert_sorted-perm x (sort_by xs)) (Perm.cons x (sort_by-perm xs))

  insert_sorted-All {κ} :
      (P : A → Type κ) (x : A) (xs : List A) → P x → All P xs → All P (insert_sorted x xs)
  unfolding insert_sorted
  insert_sorted-All P x [] p h = (p, tt)
  insert_sorted-All P x (y ∷ ys) p (q, h) = elim (Bool-cases (le x y)) [
    | inl e ↦ rw e (p, (q, h))
    | inr e ↦ rw e (q, insert_sorted-All P x ys p h)
  ]

  pub sort_by-All {κ} : (P : A → Type κ) (xs : List A) → All P xs → All P (sort_by xs)
  unfolding sort_by
  sort_by-All P [] _ = tt
  sort_by-All P (x ∷ xs) (p, h) = insert_sorted-All P x (sort_by xs) p (sort_by-All P xs h)

  insert_sorted-Memᴰ : {a x : A} (xs : List A) → Memᴰ a (x ∷ xs) → Memᴰ a (insert_sorted x xs)
  unfolding insert_sorted
  insert_sorted-Memᴰ [] m = m
  insert_sorted-Memᴰ {a} {x} (y ∷ ys) m = elim (Bool-cases (le x y)) [
    | inl e ↦ rw e m
    | inr e ↦ rw e (elim m [
      | Memᴰ.head here ↦ Memᴰ.tail (insert_sorted-Memᴰ ys (Memᴰ.head here))
      | Memᴰ.tail (Memᴰ.head here) ↦ Memᴰ.head here
      | Memᴰ.tail (Memᴰ.tail later) ↦ Memᴰ.tail (insert_sorted-Memᴰ ys (Memᴰ.tail later))
    ])
  ]

  pub sort_by-Memᴰ : {a : A} (xs : List A) → Memᴰ a xs → Memᴰ a (sort_by xs)
  unfolding sort_by
  sort_by-Memᴰ [] m = m
  sort_by-Memᴰ (x ∷ xs) (Memᴰ.head here) = insert_sorted-Memᴰ (sort_by xs) (Memᴰ.head here)
  sort_by-Memᴰ (x ∷ xs) (Memᴰ.tail later) =
      insert_sorted-Memᴰ (sort_by xs) (Memᴰ.tail (sort_by-Memᴰ xs later))

  -- Sorting a sorted list changes nothing.
  pub sort_by_of_IsSorted : (xs : List A) → IsSorted xs → sort_by xs ≡ xs
  unfolding sort_by
  sort_by_of_IsSorted [] _ = refl
  sort_by_of_IsSorted (x ∷ []) _ = refl
  sort_by_of_IsSorted (x ∷ y ∷ ys) ((e, _), h) = rw (sort_by_of_IsSorted (y ∷ ys) h, e)

  module _ (total : (x y : A) → le x y ≡ false → le y x ≡ true)
      (trans : (x y z : A) → le x y ≡ true → le y z ≡ true → le x z ≡ true) where
    insert_sorted-IsSorted : (x : A) (xs : List A) → IsSorted xs → IsSorted (insert_sorted x xs)
    unfolding insert_sorted
    insert_sorted-IsSorted x [] _ = (tt, tt)
    insert_sorted-IsSorted x (y ∷ ys) (h, s) = elim (Bool-cases (le x y)) [
      | inl e ↦ rw e ((e, All-map (λ z. trans x y z e) ys h), (h, s))
      | inr e ↦ rw e (
        insert_sorted-All (λ z. le y z ≡ true) x ys (total x y e) h,
        insert_sorted-IsSorted x ys s,
      )
    ]

    pub sort_by-IsSorted : (xs : List A) → IsSorted (sort_by xs)
    unfolding sort_by
    sort_by-IsSorted [] = tt
    sort_by-IsSorted (x ∷ xs) = insert_sorted-IsSorted x (sort_by xs) (sort_by-IsSorted xs)

  -- Elements that compare as equal keep the order in which they came.
  module _ (same : A → Bool)
      (equal : (x y : A) → same x ≡ true → same y ≡ true → le x y ≡ true) where
    filter-insert_sorted :
        (x : A) (xs : List A)
        → filter same (insert_sorted x xs) ≡ (if same x then x ∷ filter same xs else filter same xs)
    unfolding insert_sorted
    filter-insert_sorted x [] = refl
    filter-insert_sorted x (y ∷ ys) = ground (arith, filter-insert_sorted x ys, equal x y)

    pub filter-sort_by : (xs : List A) → filter same (sort_by xs) ≡ filter same xs
    unfolding sort_by
    filter-sort_by [] = refl
    filter-sort_by (x ∷ xs) =
        filter-insert_sorted x (sort_by xs)
        ∙ ap (λ l. if same x then x ∷ l else l) (filter-sort_by xs)
