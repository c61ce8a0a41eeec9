-- ===== src/Prelude/Tables.antt =====
-- `UPDATE … WHERE` on a row that its key finds: what it adds up to, over a whole table.
use Prim.Native.Nat.{ℕ, ◌+◌, ◌≤◌}
use mathlib.Core.Path.{◌≡◌, refl}
use mathlib.Core.Logic.{inl, inr}
use mathlib.Core.Bool.{false, Bool, true, ◌&&◌}
use mathlib.Core.Option.{some}
use mathlib.Core.List.{List, [], ◌∷◌}
use native.Mathlib.Omega.{arith}
use nodejs_advanced_homework.Prelude.Tests.{if◌then◌else◌, Bool-cases}
use nodejs_advanced_homework.Prelude.Lists.{All, any, filter, find?, update_where, sum_by}

module _ {A : Type 0} where
  -- How many rows pass a test.
  abbrev pub count : (A → Bool) → List A → ℕ
  count p xs = sum_by (λ x. if p x then 1 else 0) xs

  update_where-count-zero :
      (p : A → Bool) (g : A → A) (xs : List A) → count p xs ≡ 0 → update_where p g xs ≡ xs
  update_where-count-zero p g [] z = refl
  update_where-count-zero p g (x ∷ xs) z = ground (arith, update_where-count-zero p g xs)

  -- An update of at most one row changes a sum by what it changes that row.
  pub sum_by-update_where :
      (f : A → ℕ) (p : A → Bool) (g : A → A) (xs : List A) (x : A)
      → count p xs ≤ 1
      → find? p xs ≡ some x
      → sum_by f (update_where p g xs) + f x ≡ sum_by f xs + f (g x)
  sum_by-update_where f p g [] x u h = cc
  sum_by-update_where f p g (y ∷ ys) x u h =
      ground (arith, sum_by-update_where f p g ys x, update_where-count-zero p g ys)

  pub find?-passes : (p : A → Bool) (xs : List A) (x : A) → find? p xs ≡ some x → p x ≡ true
  find?-passes p [] x h = cc
  find?-passes p (y ∷ ys) x h = ground (arith, find?-passes p ys x)

  -- A narrower test passes no more rows.
  pub count-and-le : (p q : A → Bool) (xs : List A) → count (λ x. p x && q x) xs ≤ count p xs
  count-and-le p q [] = omega arith
  count-and-le p q (x ∷ xs) = ground (arith, count-and-le p q xs)

  -- What no row satisfies, no row that is left does.
  pub any-filter-false :
      (q p : A → Bool) (xs : List A) → any q xs ≡ false → any q (filter p xs) ≡ false
  any-filter-false q p [] h = refl
  any-filter-false q p (x ∷ xs) h = ground (arith, any-filter-false q p xs)

module _ {A : Type 0} (P : A → Type 0) where
  pub All-filter : (p : A → Bool) (xs : List A) → All P xs → All P (filter p xs)
  All-filter p [] a = tt
  All-filter p (x ∷ xs) (h, a) = elim (Bool-cases (p x)) [
    | inl t ↦ rw t (h, All-filter p xs a)
    | inr f ↦ rw f (All-filter p xs a)
  ]

  pub All-map : (Q : A → Type 0) (xs : List A) → ((x : A) → P x → Q x) → All P xs → All Q xs
  All-map Q [] f a = tt
  All-map Q (x ∷ xs) f (h, a) = (f x h, All-map Q xs f a)
