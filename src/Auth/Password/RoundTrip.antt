-- ===== src/Auth/Password/RoundTrip.antt =====
-- src/auth/password.ts: a stored hash is read back as it was written.
use nodejs_advanced_homework.Prelude.{
  Lacks, split, split-append, split-last, inr, inl, Option-cases, ◌≢◌, none, ap, ◌∙◌, ok, codes,
  ◌≡◌, ◌↔◌, refl, arith, ℕ, true, some, List, [], ◌∷◌, ◌++◌, length,
}
use nodejs_advanced_homework.Auth.Password.{
  key_len, scrypt_p, prefix, verify_password, decimal, scrypt_r, hash_password, matches, scrypt_n,
  encode, Crypto, Cost, dollar, same_bytes,
}

-- What Node documents: base64url has no dollar and is undone, a key has the length that was asked for, and `Number` reads
-- decimal numerals.
pub record IsCrypto (c : Crypto) : Type 0 where
  pub undone : (bytes : List ℕ) → c.from_base64 (c.to_base64 bytes) ≡ bytes
  pub no_dollar : (bytes : List ℕ) → Lacks dollar (c.to_base64 bytes)
  pub key_length :
      (password salt key : List ℕ) (len : ℕ) (cost : Cost)
      → c.scrypt password salt len cost ≡ some key
      → length key ≡ len
  pub decimals : (cs : List ℕ) (n : ℕ) → decimal cs ≡ some n → c.number cs ≡ some n

same_bytes-eq : (xs ys : List ℕ) → (same_bytes xs ys ≡ true) ↔ (xs ≡ ys)
same_bytes-eq [] [] = (λ h. refl, λ h. refl)
same_bytes-eq [] (y ∷ ys) = (λ h. cc, λ h. cc)
same_bytes-eq (x ∷ xs) [] = (λ h. cc, λ h. cc)
same_bytes-eq (x ∷ xs) (y ∷ ys) =
    let ih = same_bytes-eq xs ys in (λ h. ground (arith, ih.0), λ h. ground (arith, ih.1))

abbrev pub cost : Cost
cost = record { n = scrypt_n; r = scrypt_r; p = scrypt_p }

module _ (c : Crypto) (k : IsCrypto c) where
  split-encode :
      (salt hash : List ℕ)
      → split dollar (encode c salt hash)
        ≡ codes "scrypt"
          ∷ codes "16384"
          ∷ codes "8"
          ∷ codes "1"
          ∷ c.to_base64 salt
          ∷ c.to_base64 hash
          ∷ []
  unfolding encode
  split-encode salt hash =
      let before : split dollar (prefix ++ c.to_base64 salt ++ dollar ∷ c.to_base64 hash)
          ≡ codes "scrypt"
            ∷ codes "16384"
            ∷ codes "8"
            ∷ codes "1"
            ∷ split dollar (c.to_base64 salt ++ dollar ∷ c.to_base64 hash) =
        unfold split in refl in
      before
      ∙ ap (λ r. codes "scrypt" ∷ codes "16384" ∷ codes "8" ∷ codes "1" ∷ r)
          (split-append dollar (c.to_base64 salt) (c.to_base64 hash) (k.no_dollar salt)
            ∙ ap (λ r. c.to_base64 salt ∷ r)
                (split-last dollar (c.to_base64 hash) (k.no_dollar hash)))

  -- What is stored gives back its salt, its hash and its cost.
  matches-encode :
      (password salt hash key : List ℕ)
      → c.scrypt password salt (length hash) cost ≡ some key
      → matches c password (split dollar (encode c salt hash)) ≡ ok (same_bytes key hash)
  unfolding matches decimal
  matches-encode password salt hash key e = rw split-encode (
      let s = k.undone salt in
      let h = k.undone hash in
      let n = k.decimals (codes "16384") 16384 refl in
      let r = k.decimals (codes "8") 8 refl in
      let p = k.decimals (codes "1") 1 refl in ground arith)

  -- A password is accepted against a hash that was stored for another exactly when both give the same key,
  -- so that the password itself is always accepted; and no password is accepted for a user who is missing,
  -- whatever hash is compared in their place.
  pub verify_password-hash_password :
      (password other salt stored key dummy : List ℕ)
      → hash_password c password salt ≡ ok stored
      → c.scrypt other salt key_len cost ≡ some key
      → ((verify_password c other (some stored) dummy ≡ ok true)
          ↔ (c.scrypt password salt key_len cost ≡ some key))
        × (verify_password c password (some stored) dummy ≡ ok true)
        × (verify_password c other none stored ≢ ok true)
  unfolding hash_password verify_password
  verify_password-hash_password password other salt stored key dummy h e =
      elim (Option-cases (c.scrypt password salt key_len cost)) [
        | inl n ↦ absurd (ground arith)
        | inr (hash, own) ↦
            let is : stored ≡ encode c salt hash = ground arith in
            let len = k.key_length password salt hash key_len cost own in
            let mine : c.scrypt password salt (length hash) cost ≡ some hash = rw len own in
            let theirs : c.scrypt other salt (length hash) cost ≡ some key = rw len e in
            let m = matches-encode password salt hash hash mine in
            let t = matches-encode other salt hash key theirs in
            let same = same_bytes-eq key hash in
            let self = (same_bytes-eq hash hash).1 refl in
            rw is (((λ v. ground arith), (λ q. ground arith)), ground arith, λ v. ground arith)
      ]
