-- ===== src/Prelude/Sorting.antt =====
-- `ORDER BY` and `sort`: insertion sort by a comparison, and what it keeps.
use Prim.Native.Nat.{ℕ, zero, suc, ◌+◌, ◌≤◌, ◌<◌}
use mathlib.Core.Path.{◌≡◌, refl, ap, subst, ◌∙◌}
use mathlib.Core.Bool.{Bool, true}
use mathlib.Core.Logic.{◌⊎◌, inl, inr}
use mathlib.Core.List.{List, [], ◌∷◌, map}
use native.Mathlib.Omega.{arith}
use nodejs_advanced_homework.Prelude.Tests.{if◌then◌else◌, Bool-cases}
use nodejs_advanced_homework.Prelude.Lists.{take, filter, sum_by, length, All}

module _ {A : Type 0} where
  -- Stable: a new item goes behind those that are not greater.
  abbrev pub insert_by : (A → A → Bool) → A → List A → List A
  insert_by le x [] = x ∷ []
  insert_by le x (y ∷ ys) = let rest = insert_by le x ys in if le x y then x ∷ y ∷ ys else y ∷ rest

  abbrev pub sort_by : (A → A → Bool) → List A → List A
  sort_by le [] = []
  sort_by le (x ∷ xs) = insert_by le x (sort_by le xs)

  -- Membership by recursion, with the place kept.
  abbrev pub Has : A → List A → Type 0
  Has a [] = ⊥
  Has a (x ∷ xs) = (a ≡ x) ⊎ Has a xs

  pub Has-insert_by :
      (le : A → A → Bool) (x : A) (ys : List A) (a : A) → Has a (insert_by le x ys) → Has a (x ∷ ys)
  Has-insert_by le x [] a m = m
  Has-insert_by le x (y ∷ ys) a m = ground (arith, Has-insert_by le x ys a)

  pub Has-sort_by : (le : A → A → Bool) (xs : List A) (a : A) → Has a (sort_by le xs) → Has a xs
  Has-sort_by le [] a m = m
  Has-sort_by le (x ∷ xs) a m =
      ground (arith, Has-insert_by le x (sort_by le xs) a m, Has-sort_by le xs a)

  pub Has-filter :
      (p : A → Bool) (xs : List A) (a : A) → Has a (filter p xs) → Has a xs × (p a ≡ true)
  Has-filter p [] a m = absurd m
  Has-filter p (x ∷ xs) a m = elim (Bool-cases (p x)) [
    | inl e ↦ elim (rw e at m) [
      | inl h ↦ (inl h, rw h e)
      | inr h ↦ let (k, t) = Has-filter p xs a h in (inr k, t)
    ]
    | inr e ↦ let (k, t) = Has-filter p xs a (rw e at m) in (inr k, t)
  ]

  pub Has-take : (n : ℕ) (xs : List A) (a : A) → Has a (take n xs) → Has a xs
  Has-take zero xs a m = absurd m
  Has-take (suc n) [] a m = m
  Has-take (suc n) (x ∷ xs) a (inl h) = inl h
  Has-take (suc n) (x ∷ xs) a (inr h) = inr (Has-take n xs a h)

  pub sum_by-insert_by :
      (f : A → ℕ) (le : A → A → Bool) (x : A) (ys : List A)
      → sum_by f (insert_by le x ys) ≡ f x + sum_by f ys
  sum_by-insert_by f le x [] = refl
  sum_by-insert_by f le x (y ∷ ys) = ground (arith, sum_by-insert_by f le x ys)

  -- Sorting keeps every sum: the order of the rows is all that changes.
  pub sum_by-sort_by :
      (f : A → ℕ) (le : A → A → Bool) (xs : List A) → sum_by f (sort_by le xs) ≡ sum_by f xs
  sum_by-sort_by f le [] = refl
  sum_by-sort_by f le (x ∷ xs) =
      omega (arith, sum_by-insert_by f le x (sort_by le xs), sum_by-sort_by f le xs)

  length-insert_by :
      (le : A → A → Bool) (x : A) (ys : List A) → length (insert_by le x ys) ≡ suc (length ys)
  length-insert_by le x [] = refl
  length-insert_by le x (y ∷ ys) = ground (arith, length-insert_by le x ys)

  pub length-sort_by : (le : A → A → Bool) (xs : List A) → length (sort_by le xs) ≡ length xs
  length-sort_by le [] = refl
  length-sort_by le (x ∷ xs) = length-insert_by le x (sort_by le xs) ∙ ap suc (length-sort_by le xs)

  All-insert_by :
      (P : A → Type 0) (le : A → A → Bool) (x : A) (ys : List A)
      → P x
      → All P ys
      → All P (insert_by le x ys)
  All-insert_by P le x [] p all = (p, tt)
  All-insert_by P le x (y ∷ ys) p (q, all) = elim (Bool-cases (le x y)) [
    | inl t ↦ rw t (p, (q, all))
    | inr f ↦ rw f (q, All-insert_by P le x ys p all)
  ]

  pub All-sort_by :
      (P : A → Type 0) (le : A → A → Bool) (xs : List A) → All P xs → All P (sort_by le xs)
  All-sort_by P le [] all = tt
  All-sort_by P le (x ∷ xs) (p, all) =
      All-insert_by P le x (sort_by le xs) p (All-sort_by P le xs all)

  pub sort_by-ne-nil : (le : A → A → Bool) (xs : List A) → sort_by le xs ≡ [] → xs ≡ []
  sort_by-ne-nil le [] e = refl
  sort_by-ne-nil le (x ∷ xs) e =
      absurd (omega (arith, sum_by-sort_by (λ _. 1) le (x ∷ xs), ap (sum_by (λ _. 1)) e))

  pub filter-all : (p : A → Bool) (xs : List A) → ((x : A) → p x ≡ true) → filter p xs ≡ xs
  filter-all p [] h = refl
  filter-all p (x ∷ xs) h = rw (h x) (ap (λ r. x ∷ r) (filter-all p xs h))

  pub sum_by-map-le :
      (f : A → ℕ) (g : A → A) (xs : List A)
      → ((x : A) → f (g x) ≤ f x)
      → sum_by f (map g xs) ≤ sum_by f xs
  sum_by-map-le f g [] h = omega arith
  sum_by-map-le f g (x ∷ xs) h = omega (arith, h x, sum_by-map-le f g xs h)

  -- A sum falls where one row's part does and no other grows.
  pub sum_by-map-lt :
      (f : A → ℕ) (g : A → A) (xs : List A) (c : A)
      → ((x : A) → f (g x) ≤ f x)
      → Has c xs
      → f (g c) < f c
      → sum_by f (map g xs) < sum_by f xs
  sum_by-map-lt f g [] c h m k = absurd m
  sum_by-map-lt f g (x ∷ xs) c h (inl e) k =
      let k' = subst (λ y. f (g y) < f y) e k in omega (arith, k', sum_by-map-le f g xs h)
  sum_by-map-lt f g (x ∷ xs) c h (inr m) k = omega (arith, h x, sum_by-map-lt f g xs c h m k)
