-- ===== src/Prelude/Rows.antt =====
-- Rows that an `UPDATE` or a `DELETE` leaves as they are.
use Prim.Native.Nat.{◌≤◌}
use mathlib.Core.Path.{◌≡◌, refl}
use mathlib.Core.Logic.{inl, inr}
use mathlib.Core.Bool.{Bool, true, false}
use mathlib.Core.Option.{none}
use mathlib.Core.List.{List, [], ◌∷◌}
use native.Mathlib.Omega.{arith}
use nodejs_advanced_homework.Prelude.Tests.{Bool-cases}
use nodejs_advanced_homework.Prelude.Lists.{All, any, filter, find?, update_where}
use nodejs_advanced_homework.Prelude.Sorting.{Has}
use nodejs_advanced_homework.Prelude.Tables.{count}

module _ {A : Type 0} where
  pub update_where-none :
      (p : A → Bool) (f : A → A) (xs : List A) → any p xs ≡ false → update_where p f xs ≡ xs
  update_where-none p f [] h = refl
  update_where-none p f (x ∷ xs) h = ground (arith, update_where-none p f xs)

  -- What an update does not touch, no test tells apart.
  pub any-update_where :
      (q p : A → Bool) (f : A → A) (xs : List A)
      → ((x : A) → q (f x) ≡ q x)
      → any q (update_where p f xs) ≡ any q xs
  any-update_where q p f [] h = refl
  any-update_where q p f (x ∷ xs) h = ground (arith, h x, any-update_where q p f xs h)

  pub count-update_where :
      (q p : A → Bool) (f : A → A) (xs : List A)
      → ((x : A) → q (f x) ≡ q x)
      → count q (update_where p f xs) ≡ count q xs
  count-update_where q p f [] h = refl
  count-update_where q p f (x ∷ xs) h = ground (arith, h x, count-update_where q p f xs h)

  pub count-filter : (q p : A → Bool) (xs : List A) → count q (filter p xs) ≤ count q xs
  count-filter q p [] = omega arith
  count-filter q p (x ∷ xs) = ground (arith, count-filter q p xs)

  pub count_of_none : (q : A → Bool) (xs : List A) → any q xs ≡ false → count q xs ≡ 0
  count_of_none q [] h = refl
  count_of_none q (x ∷ xs) h = ground (arith, count_of_none q xs)

  pub Has-update_where :
      (p : A → Bool) (f : A → A) (xs : List A) (a : A)
      → p a ≡ false
      → Has a xs
      → Has a (update_where p f xs)
  Has-update_where p f [] a h m = m
  Has-update_where p f (x ∷ xs) a h (inl e) = inl (rw (← e, h) refl)
  Has-update_where p f (x ∷ xs) a h (inr m) = inr (Has-update_where p f xs a h m)

  pub filter-Has :
      (p : A → Bool) (xs : List A) (a : A) → p a ≡ true → Has a xs → Has a (filter p xs)
  filter-Has p [] a h m = m
  filter-Has p (x ∷ xs) a h (inl e) = rw (← e, h) (inl refl)
  filter-Has p (x ∷ xs) a h (inr m) = elim (Bool-cases (p x)) [
    | inl t ↦ rw t (inr (filter-Has p xs a h m))
    | inr f ↦ rw f (filter-Has p xs a h m)
  ]

  pub find?-none : (p : A → Bool) (xs : List A) → All (λ x. p x ≡ false) xs → find? p xs ≡ none
  find?-none p [] h = refl
  find?-none p (x ∷ xs) (f, h) = ground (arith, find?-none p xs h)

  pub any-Has : (p : A → Bool) (xs : List A) → any p xs ≡ true → (a : A) × Has a xs × (p a ≡ true)
  any-Has p [] h = cc
  any-Has p (x ∷ xs) h = elim (Bool-cases (p x)) [
    | inl t ↦ (x, inl refl, t)
    | inr f ↦ let (a, m, t) = any-Has p xs (rw f at h) in (a, inr m, t)
  ]

  pub Has-any : (p : A → Bool) (xs : List A) (a : A) → Has a xs → p a ≡ true → any p xs ≡ true
  Has-any p [] a m h = absurd m
  Has-any p (x ∷ xs) a (inl e) h = rw (← e, h) refl
  Has-any p (x ∷ xs) a (inr m) h = ground (arith, Has-any p xs a m h)
