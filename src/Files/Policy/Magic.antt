-- ===== src/Files/Policy/Magic.antt =====
-- src/files/policy.ts: the table of content types and the table of first bytes.
use nodejs_advanced_homework.Prelude.{
  str_eq_iff, refl, str_eq, false, inr, Bool-cases, [], ◌∷◌, arith, inl, ◌⊎◌, is_some, true, ◌≡◌, ℕ,
  List, String,
}
use nodejs_advanced_homework.Files.Policy.{allowed_type, magic_matches}

-- The content types, told by the first byte.
abbrev Kind : String → ℕ → Type 0
Kind s b =
    ((s ≡ "image/png") × (b ≡ 137))
    ⊎ ((s ≡ "image/jpeg") × (b ≡ 255))
    ⊎ ((s ≡ "image/webp") × (b ≡ 82))
    ⊎ ((s ≡ "application/pdf") × (b ≡ 37))
    ⊎ ((s ≡ "application/gzip") × (b ≡ 31))

magic_matches-Kind : (s : String) (b : ℕ) (bs : List ℕ) → magic_matches s (b ∷ bs) ≡ true → Kind s b
unfolding magic_matches
magic_matches-Kind s b bs h = elim (Bool-cases (str_eq s "image/png")) [
  | inl t ↦ inl ((str_eq_iff s "image/png").0 t, ground arith)
  | inr n1 ↦ elim (Bool-cases (str_eq s "image/jpeg")) [
    | inl t ↦ inr (inl ((str_eq_iff s "image/jpeg").0 t, ground arith))
    | inr n2 ↦ elim (Bool-cases (str_eq s "image/webp")) [
      | inl t ↦ inr (inr (inl ((str_eq_iff s "image/webp").0 t, ground arith)))
      | inr n3 ↦ elim (Bool-cases (str_eq s "application/pdf")) [
        | inl t ↦ inr (inr (inr (inl ((str_eq_iff s "application/pdf").0 t, ground arith))))
        | inr n4 ↦ elim (Bool-cases (str_eq s "application/gzip")) [
          | inl t ↦ inr (inr (inr (inr ((str_eq_iff s "application/gzip").0 t, ground arith))))
          | inr n5 ↦ absurd (ground arith)
        ]
      ]
    ]
  ]
]

Kind-eq : (s t : String) (b : ℕ) → Kind s b → Kind t b → s ≡ t
Kind-eq s t b k l = ground arith

Kind-allowed : (s : String) (b : ℕ) → Kind s b → is_some (allowed_type s) ≡ true
unfolding allowed_type
Kind-allowed s b (inl (e, _)) = rw e refl
Kind-allowed s b (inr (inl (e, _))) = rw e refl
Kind-allowed s b (inr (inr (inl (e, _)))) = rw e refl
Kind-allowed s b (inr (inr (inr (inl (e, _))))) = rw e refl
Kind-allowed s b (inr (inr (inr (inr (e, _))))) = rw e refl

-- no type accepts an empty file
magic_matches_nil : (s : String) → magic_matches s [] ≡ false
unfolding magic_matches
magic_matches_nil s = ground arith

-- A file that passes the check of its first bytes has an allowed content type, and no two types accept
-- the same file.
magic_matches-allowed_type :
    (s t : String) (head : List ℕ)
    → magic_matches s head ≡ true
    → magic_matches t head ≡ true
    → (is_some (allowed_type s) ≡ true) × (s ≡ t)
magic_matches-allowed_type s t [] h k = absurd (ground (arith, magic_matches_nil s))
magic_matches-allowed_type s t (b ∷ bs) h k =
    let mine = magic_matches-Kind s b bs h in
    (Kind-allowed s b mine, Kind-eq s t b mine (magic_matches-Kind t b bs k))
