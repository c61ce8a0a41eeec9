-- ===== src/Auth/Password.antt =====
-- src/auth/password.ts: hashes of passwords, stored as text. A text is the list of its code points; scrypt and
-- base64url are Node's and parameters, and so is `Number` on texts that are no decimal numeral.
pub mod RoundTrip
pub mod Tests
use nodejs_advanced_homework.Prelude.{
  split, ℕ, zero, suc, ◌+◌, ◌-◌, ◌*◌, Bool, true, false, not, ◌&&◌, Option, none, some, List, [],
  ◌∷◌, ◌++◌, String, leb, ◌==◌, if◌then◌else◌, length, codes, Result, ok, err,
}

abbrev pub scrypt_n : ℕ
scrypt_n = 16384

abbrev pub scrypt_r : ℕ
scrypt_r = 8

abbrev pub scrypt_p : ℕ
scrypt_p = 1

abbrev pub key_len : ℕ
key_len = 32

-- `Number` gives no whole number: scrypt throws
pub data HashError : Type 0 where
  not_a_number scrypt_failed : HashError

pub record Cost : Type 0 where
  pub n : ℕ
  pub r : ℕ
  pub p : ℕ

pub record Crypto : Type 0 where
  -- password, salt, key length and cost
  pub scrypt : List ℕ → List ℕ → ℕ → Cost → Option (List ℕ)
  -- `toString('base64url')` and `Buffer.from(…, 'base64url')`
  pub to_base64 : List ℕ → List ℕ
  pub from_base64 : List ℕ → List ℕ
  -- `Number`, where the result is a whole number
  pub number : List ℕ → Option ℕ

abbrev pub dollar : ℕ
dollar = 36

abbrev is_digit : ℕ → Bool
is_digit c = leb b'0' c && leb c b'9'

abbrev digits_from : ℕ → List ℕ → Option ℕ
digits_from acc [] = some acc
digits_from acc (c ∷ cs) =
    let rest = digits_from (10 * acc + (c - b'0')) cs in if is_digit c then rest else none

-- what a decimal numeral stands for
unfoldable pub decimal : List ℕ → Option ℕ
decimal cs = digits_from 0 cs

abbrev pub same_bytes : List ℕ → List ℕ → Bool
same_bytes [] [] = true
same_bytes [] (y ∷ ys) = false
same_bytes (x ∷ xs) [] = false
same_bytes (x ∷ xs) (y ∷ ys) = x == y && same_bytes xs ys

abbrev cost_of : Option ℕ → Option ℕ → Option ℕ → Option Cost
cost_of (some n) (some r) (some p) = some (record { n = n; r = r; p = p })
cost_of _ _ _ = none

abbrev pub prefix : List ℕ
prefix = codes "scrypt$16384$8$1$"

module _ (c : Crypto) where
  -- with the constants of `hashPassword`
  unfoldable pub encode : List ℕ → List ℕ → List ℕ
  encode salt hash = prefix ++ c.to_base64 salt ++ dollar ∷ c.to_base64 hash

  unfoldable pub hash_password : List ℕ → List ℕ → Result HashError (List ℕ)
  unfolding encode
  hash_password password salt =
      elim (c.scrypt password salt key_len (record { n = scrypt_n; r = scrypt_r; p = scrypt_p })) [
        | none ↦ err scrypt_failed
        | some hash ↦ ok (encode salt hash)
      ]

  abbrev compare_with : List ℕ → List ℕ → List ℕ → Option Cost → Result HashError Bool
  compare_with password salt expected none = err not_a_number
  compare_with password salt expected (some cost) =
      elim (c.scrypt password salt (length expected) cost) [
        | none ↦ err scrypt_failed
        | some actual ↦ ok (same_bytes actual expected)
      ]

  unfoldable pub matches : List ℕ → List (List ℕ) → Result HashError Bool
  matches password (scheme ∷ n ∷ r ∷ p ∷ salt ∷ hash ∷ []) =
      if same_bytes scheme (codes "scrypt")
      then compare_with password (c.from_base64 salt) (c.from_base64 hash)
          (cost_of (c.number n) (c.number r) (c.number p))
      else ok false
  matches password parts = ok false

  abbrev and_stored : Bool → Result HashError Bool → Result HashError Bool
  and_stored stored (ok b) = ok (stored && b)
  and_stored stored (err e) = err e

  -- `dummy` is the hash of no one's password, for a user who is missing
  unfoldable pub verify_password : List ℕ → Option (List ℕ) → List ℕ → Result HashError Bool
  unfolding matches
  verify_password password none dummy = and_stored false (matches password (split dollar dummy))
  verify_password password (some stored) dummy =
      and_stored true (matches password (split dollar stored))
