-- ===== src/Prelude/Places.antt =====
-- A list changed at one place, and what holds at all places but one.
use Prim.Native.Nat.{ℕ, zero, suc, ◌+◌, ◌≤◌}
use mathlib.Core.Path.{◌≡◌}
use mathlib.Core.Bool.{Bool, true, false}
use mathlib.Core.Option.{Option, none, some}
use mathlib.Core.List.{List, [], ◌∷◌}
use native.Mathlib.Omega.{arith}
use nodejs_advanced_homework.Prelude.Tests.{if◌then◌else◌}
use nodejs_advanced_homework.Prelude.Lists.{All}
use nodejs_advanced_homework.Prelude.Tables.{count}

module _ {A : Type 0} where
  abbrev pub nth? : ℕ → List A → Option A
  nth? n [] = none
  nth? zero (x ∷ xs) = some x
  nth? (suc n) (x ∷ xs) = nth? n xs

  abbrev pub set_at : ℕ → A → List A → List A
  set_at n y [] = []
  set_at zero y (x ∷ xs) = y ∷ xs
  set_at (suc n) y (x ∷ xs) = x ∷ set_at n y xs

  pub count-set_at :
      (q : A → Bool) (i : ℕ) (y : A) (xs : List A) {x : A}
      → nth? i xs ≡ some x
      → count q (set_at i y xs) + (if q x then 1 else 0) ≡ count q xs + (if q y then 1 else 0)
  count-set_at q i y [] h = cc
  count-set_at q zero y (x ∷ xs) h = ground arith
  count-set_at q (suc i) y (x ∷ xs) h = ground (arith, count-set_at q i y xs h)

  abbrev pub AllBut : ℕ → (A → Type 0) → List A → Type 0
  AllBut i P [] = Unit {0}
  AllBut zero P (x ∷ xs) = All P xs
  AllBut (suc i) P (x ∷ xs) = P x × AllBut i P xs

  pub All-set_at :
      (P : A → Type 0) (i : ℕ) (y : A) (xs : List A) → AllBut i P xs → P y → All P (set_at i y xs)
  All-set_at P i y [] h p = tt
  All-set_at P zero y (x ∷ xs) h p = (p, h)
  All-set_at P (suc i) y (x ∷ xs) (q, h) p = (q, All-set_at P i y xs h p)

  pub All-nth? :
      (P : A → Type 0) (i : ℕ) (xs : List A) {x : A} → All P xs → nth? i xs ≡ some x → P x
  All-nth? P i [] h e = cc
  All-nth? P zero (x ∷ xs) (p, h) e = ground arith
  All-nth? P (suc i) (x ∷ xs) (p, h) e = All-nth? P i xs h e

  none_passes : (q : A → Bool) (xs : List A) → count q xs ≡ 0 → All (λ x. q x ≡ false) xs
  none_passes q [] z = tt
  none_passes q (x ∷ xs) z = (ground arith, none_passes q xs (ground arith))

  one_passes :
      (q : A → Bool) (i : ℕ) (xs : List A) {x : A}
      → nth? i xs ≡ some x
      → q x ≡ true
      → 1 ≤ count q xs
  one_passes q i [] e t = cc
  one_passes q zero (y ∷ ys) e t = ground arith
  one_passes q (suc i) (y ∷ ys) e t = ground (arith, one_passes q i ys e t)

  -- Where one place has the only item that passes, no other passes.
  pub AllBut-count :
      (q : A → Bool) (i : ℕ) (xs : List A) {x : A}
      → nth? i xs ≡ some x
      → q x ≡ true
      → count q xs ≤ 1
      → AllBut i (λ y. q y ≡ false) xs
  AllBut-count q i [] e t c = tt
  AllBut-count q zero (y ∷ ys) e t c = none_passes q ys (ground arith)
  AllBut-count q (suc i) (y ∷ ys) e t c =
      let one = one_passes q i ys e t in (ground arith, AllBut-count q i ys e t (ground arith))

  pub AllBut-map :
      (P Q R : A → Type 0) (i : ℕ) (xs : List A)
      → All P xs
      → AllBut i Q xs
      → ((x : A) → P x → Q x → R x)
      → AllBut i R xs
  AllBut-map P Q R i [] p q f = tt
  AllBut-map P Q R zero (x ∷ xs) (p, ps) q f = All-map₂ xs ps q
    where
      All-map₂ : (ys : List A) → All P ys → All Q ys → All R ys
      All-map₂ [] ps qs = tt
      All-map₂ (y ∷ ys) (p, ps) (q, qs) = (f y p q, All-map₂ ys ps qs)
  AllBut-map P Q R (suc i) (x ∷ xs) (p, ps) (q, qs) f = (f x p q, AllBut-map P Q R i xs ps qs f)

  pub AllBut-weaken :
      (Q R : A → Type 0) (i : ℕ) (xs : List A)
      → AllBut i Q xs
      → ((x : A) → Q x → R x)
      → AllBut i R xs
  AllBut-weaken Q R i xs q f = AllBut-map (λ _. Unit {0}) Q R i xs (trivial xs) q (λ x _. f x)
    where
      trivial : (ys : List A) → All (λ _. Unit {0}) ys
      trivial [] = tt
      trivial (y ∷ ys) = (tt, trivial ys)

  pub AllBut-each : (Q : A → Type 0) (i : ℕ) (xs : List A) → ((x : A) → Q x) → AllBut i Q xs
  AllBut-each Q i [] f = tt
  AllBut-each Q zero (x ∷ xs) f = each xs
    where
      each : (ys : List A) → All Q ys
      each [] = tt
      each (y ∷ ys) = (f y, each ys)
  AllBut-each Q (suc i) (x ∷ xs) f = (f x, AllBut-each Q i xs f)

  pub AllBut-all : (P : A → Type 0) (i : ℕ) (xs : List A) → All P xs → AllBut i P xs
  AllBut-all P i [] h = tt
  AllBut-all P zero (x ∷ xs) (p, h) = h
  AllBut-all P (suc i) (x ∷ xs) (p, h) = (p, AllBut-all P i xs h)
