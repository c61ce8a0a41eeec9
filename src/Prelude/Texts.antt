-- ===== src/Prelude/Texts.antt =====
-- Texts as code points, for the searches that the source writes as regular expressions.
use Prim.Native.Nat.{ℕ, ◌+◌}
use Prim.Native.Char.{code}
use Prim.Native.String.{String}
use mathlib.Core.Bool.{Bool, true, false, ◌&&◌, ◌||◌}
use mathlib.Core.List.{List, [], ◌∷◌, map}
use nodejs_advanced_homework.Prelude.Tests.{leb, ◌==◌, if◌then◌else◌}

abbrev pub codes : String → List ℕ
codes String.[] = []
codes (String.◌∷◌ c s) = code c ∷ codes s

-- `toLowerCase` on ASCII
abbrev pub lower : ℕ → ℕ
lower c = if leb b'A' c && leb c b'Z' then c + 32 else c

-- `s.startsWith(prefix)`
unfoldable pub starts_with : List ℕ → List ℕ → Bool
starts_with [] s = true
starts_with (p ∷ ps) [] = false
starts_with (p ∷ ps) (c ∷ s) = p == c && starts_with ps s

-- `s.includes(part)`
unfoldable pub includes : List ℕ → List ℕ → Bool
includes part [] = starts_with part []
includes part (c ∷ s) = starts_with part (c ∷ s) || includes part s

-- `/part/i.test(s)` for a lower-case `part`
unfoldable pub matches_ci : String → String → Bool
unfolding includes starts_with
matches_ci part s = includes (codes part) (map lower (codes s))

-- `s.startsWith(prefix)` on texts
unfoldable pub has_prefix : String → String → Bool
unfolding starts_with
has_prefix part s = starts_with (codes part) (codes s)
