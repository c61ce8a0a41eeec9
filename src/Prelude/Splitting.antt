-- ===== src/Prelude/Splitting.antt =====
-- `split` and `trim` on texts as lists of code points.
use Prim.Native.Nat.{ℕ}
use mathlib.Core.Path.{◌≡◌, refl}
use mathlib.Core.Bool.{Bool, false, ◌&&◌, ◌||◌}
use mathlib.Core.Option.{Option, none, some}
use mathlib.Core.List.{List, [], ◌∷◌, ◌++◌}
use native.Mathlib.Omega.{arith}
use nodejs_advanced_homework.Prelude.Tests.{leb, ◌==◌, if◌then◌else◌}
use nodejs_advanced_homework.Prelude.Lists.{All}

abbrev pub add_to_first : ℕ → List (List ℕ) → List (List ℕ)
add_to_first c [] = (c ∷ []) ∷ []
add_to_first c (p ∷ ps) = (c ∷ p) ∷ ps

-- `text.split(sep)` for one character
unfoldable pub split : ℕ → List ℕ → List (List ℕ)
split sep [] = [] ∷ []
split sep (c ∷ cs) = let rest = split sep cs in if c == sep then [] ∷ rest else add_to_first c rest

abbrev pub Lacks : ℕ → List ℕ → Type 0
Lacks sep xs = All (λ x. (x == sep) ≡ false) xs

pub split-append :
    (sep : ℕ) (xs rest : List ℕ) → Lacks sep xs → split sep (xs ++ sep ∷ rest) ≡ xs ∷ split sep rest
unfolding split
split-append sep [] rest h = ground arith
split-append sep (x ∷ xs) rest (f, h) = rw (f, split-append sep xs rest h) refl

pub split-last : (sep : ℕ) (xs : List ℕ) → Lacks sep xs → split sep xs ≡ xs ∷ []
unfolding split
split-last sep [] h = refl
split-last sep (x ∷ xs) (f, h) = rw (f, split-last sep xs h) refl

-- the text before the first separator, and the text after it
abbrev pub cut : ℕ → List ℕ → Option (List ℕ × List ℕ)
cut sep [] = none
cut sep (c ∷ cs) =
    let rest = cut sep cs in
    if c == sep then some ([], cs) else elim rest [ none ↦ none | some p ↦ some (c ∷ p.0, p.1) ]

pub cut-append :
    (sep : ℕ) (xs rest : List ℕ) → Lacks sep xs → cut sep (xs ++ sep ∷ rest) ≡ some (xs, rest)
cut-append sep [] rest h = ground arith
cut-append sep (x ∷ xs) rest (f, h) = rw (f, cut-append sep xs rest h) refl

-- what `trim` takes away
abbrev pub is_space : ℕ → Bool
is_space c =
    (leb 9 c && leb c 13)
    || c == 32
    || c == 160
    || c == 5760
    || (leb 8192 c && leb c 8202)
    || c == 8232
    || c == 8233
    || c == 8239
    || c == 8287
    || c == 12288
    || c == 65279

abbrev pub trim_start : List ℕ → List ℕ
trim_start [] = []
trim_start (c ∷ cs) = let rest = trim_start cs in if is_space c then rest else c ∷ cs

abbrev unless_empty : List ℕ → ℕ → List ℕ
unless_empty [] c = if is_space c then [] else c ∷ []
unless_empty (d ∷ ds) c = c ∷ d ∷ ds

abbrev pub trim_end : List ℕ → List ℕ
trim_end [] = []
trim_end (c ∷ cs) = unless_empty (trim_end cs) c

unfoldable pub trim : List ℕ → List ℕ
trim cs = trim_end (trim_start cs)

abbrev pub IsSolid : List ℕ → Type 0
IsSolid xs = All (λ x. is_space x ≡ false) xs

trim_end_solid : (xs : List ℕ) → IsSolid xs → trim_end xs ≡ xs
trim_end_solid [] h = refl
trim_end_solid (x ∷ []) (f, h) = rw f refl
trim_end_solid (x ∷ y ∷ xs) (f, h) = rw (trim_end_solid (y ∷ xs) h) refl

pub trim_solid : (xs : List ℕ) → IsSolid xs → trim xs ≡ xs
unfolding trim
trim_solid [] h = refl
trim_solid (x ∷ xs) (f, h) = rw f (trim_end_solid (x ∷ xs) (f, h))

pub trim-blank : (xs : List ℕ) → trim (32 ∷ xs) ≡ trim xs
unfolding trim
trim-blank xs = refl
