-- ===== src/Auth/Password/Tests.antt =====
-- src/auth/password.ts: a stored hash, its password and another one, with a toy in place of scrypt.
use nodejs_advanced_homework.Prelude.{
  Lacks, ◌≡◌, ◌≢◌, ◌↔◌, refl, ap, arith, ℕ, zero, suc, ◌+◌, ◌-◌, true, none, some, List, [], ◌∷◌,
  ok, map, length, sum_by,
}
use nodejs_advanced_homework.Auth.Password.{
  Crypto, decimal, dollar, hash_password, verify_password, encode, key_len,
}
use nodejs_advanced_homework.Auth.Password.RoundTrip.{IsCrypto, verify_password-hash_password}

abbrev fill : ℕ → ℕ → List ℕ
fill zero b = []
fill (suc n) b = b ∷ fill n b

abbrev toy : Crypto
toy = record {
  scrypt = λ password salt len cost. some (fill len (sum_by (λ b. b) password));
  to_base64 = map (λ b. b + 37);
  from_base64 = map (λ b. b - 37);
  number = decimal;
}

toy-undone : (bytes : List ℕ) → map (λ b. b - 37) (map (λ b. b + 37) bytes) ≡ bytes
toy-undone [] = refl
toy-undone (b ∷ bs) = ground (arith, toy-undone bs)

toy-no_dollar : (bytes : List ℕ) → Lacks dollar (map (λ b. b + 37) bytes)
toy-no_dollar [] = tt
toy-no_dollar (b ∷ bs) = (ground arith, toy-no_dollar bs)

length-fill : (n b : ℕ) → length (fill n b) ≡ n
length-fill zero b = refl
length-fill (suc n) b = ap suc (length-fill n b)

toy-IsCrypto : IsCrypto toy
toy-IsCrypto = record {
  undone = toy-undone;
  no_dollar = toy-no_dollar;
  key_length =
      λ password salt key len cost e. ground (arith, length-fill len (sum_by (λ b. b) password));
  decimals = λ cs n e. e;
}

abbrev password : List ℕ
password = 112 ∷ 119 ∷ []

abbrev other : List ℕ
other = 112 ∷ 120 ∷ []

abbrev stored : List ℕ
stored = encode toy (1 ∷ 2 ∷ []) (fill 32 231)

is_stored : hash_password toy password (1 ∷ 2 ∷ []) ≡ ok stored
unfolding hash_password
is_stored = refl

verify_password-hash_password_example :
    ((verify_password toy other (some stored) [] ≡ ok true) ↔ (
      toy.scrypt password (1 ∷ 2 ∷ []) key_len (record { n = 16384; r = 8; p = 1 })
      ≡ some (fill 32 232)))
    × (verify_password toy password (some stored) [] ≡ ok true)
    × (verify_password toy other none stored ≢ ok true)
verify_password-hash_password_example =
    verify_password-hash_password toy toy-IsCrypto password other (1 ∷ 2 ∷ []) stored (fill 32 232)
      [] is_stored refl
