-- ===== src/Cdn/Headers.antt =====
-- src/cdn/edge.ts: `cacheableSeconds` and `etagMatches`. Texts are code points; what `Number` makes of a
-- directive's value is a parameter.
use nodejs_advanced_homework.Prelude.{
  ℕ, Bool, true, false, not, ◌&&◌, ◌||◌, Option, none, some, List, [], ◌∷◌, String, ◌==◌,
  if◌then◌else◌, any, find?, map, codes, lower, starts_with, or_else,
}

-- `s.split(c)`
abbrev pub split_on : ℕ → List ℕ → List (List ℕ)
split_on sep [] = [] ∷ []
split_on sep (c ∷ s) =
    let rest = split_on sep s in
    if c == sep
    then [] ∷ rest
    else elim rest [ [] ↦ (c ∷ []) ∷ [] | (part ∷ parts) ↦ (c ∷ part) ∷ parts ]

-- white space
abbrev is_space : ℕ → Bool
is_space c = c == b' ' || c == 9 || c == 10 || c == 13

abbrev trim_start : List ℕ → List ℕ
trim_start [] = []
trim_start (c ∷ s) = let rest = trim_start s in if is_space c then rest else c ∷ s

abbrev trim_end : List ℕ → List ℕ
trim_end [] = []
trim_end (c ∷ s) =
    let rest = trim_end s in
    elim rest [ [] ↦ if is_space c then [] else c ∷ [] | (d ∷ t) ↦ c ∷ d ∷ t ]

-- `s.trim()`
abbrev pub trim : List ℕ → List ℕ
trim s = trim_end (trim_start s)

abbrev pub same_codes : List ℕ → List ℕ → Bool
same_codes [] [] = true
same_codes [] (d ∷ t) = false
same_codes (c ∷ s) [] = false
same_codes (c ∷ s) (d ∷ t) = c == d && same_codes s t

abbrev pub is_text : String → List ℕ → Bool
is_text text s = same_codes (codes text) s

-- `d.startsWith(prefix)`
abbrev pub has_start : String → List ℕ → Bool
has_start prefix d = starts_with (codes prefix) d

-- `d.split('=')[1]`
abbrev value_of : List (List ℕ) → Option (List ℕ)
value_of [] = none
value_of (name ∷ []) = none
value_of (name ∷ value ∷ parts) = some value

abbrev seconds_of : (List ℕ → Option ℕ) → Option (List ℕ) → ℕ
seconds_of number none = 0
seconds_of number (some directive) = elim (value_of (split_on b'=' directive)) [
  | none ↦ 0
  | some value ↦ or_else (number value) 0
]

abbrev first_of : Option (List ℕ) → Option (List ℕ) → Option (List ℕ)
first_of none o = o
first_of (some d) o = some d

-- `number` is none where `Number` gives no finite positive number.
unfoldable pub cacheable_seconds : (List ℕ → Option ℕ) → Option String → ℕ
unfolding starts_with
cacheable_seconds number none = 0
cacheable_seconds number (some cache_control) =
    let directives = map trim (split_on b',' (map lower (codes cache_control))) in
    if any (λ d. is_text "no-store" d || is_text "private" d || is_text "no-cache" d) directives
    then 0
    else if not (any (is_text "public") directives)
    then 0
    else seconds_of number (
        first_of (find? (has_start "s-maxage=") directives)
          (find? (has_start "max-age=") directives))

-- `tag.trim().replace(/^W\//, '')`
abbrev weakless : List ℕ → List ℕ
weakless [] = []
weakless (c ∷ []) = c ∷ []
weakless (c ∷ d ∷ s) = if c == b'W' && d == b'/' then s else c ∷ d ∷ s

abbrev bare : List ℕ → List ℕ
bare tag = weakless (trim tag)

unfoldable pub etag_matches : Option String → String → Bool
etag_matches none etag = false
etag_matches (some if_none_match) etag =
    not (is_text "" (codes if_none_match))
    && any (λ tag. is_text "*" (trim tag) || same_codes (bare tag) (bare (codes etag)))
        (split_on b',' (codes if_none_match))
