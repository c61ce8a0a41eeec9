-- ===== src/Files/Service/Sent.antt =====
-- src/files/files.service.ts: the parts that a client has put at the URLs it was given.
use nodejs_advanced_homework.Prelude.{
  Bool, true, Each, Bool-cases, inl, inr, ◌≡◌, refl, arith, List, [], ◌∷◌, String, ℕ, zero, suc,
  ◌+◌, ◌≤◌, ◌<◌, any, All, All-map, map, ◌==◌,
}
use nodejs_advanced_homework.Storage.{S3, UploadedPart}
use nodejs_advanced_homework.Files.Policy.{part_length}
use nodejs_advanced_homework.Files.Service.{
  part_url_ttl_sec, PartUrl, FileRow, part_urls, plan_of_row,
}

abbrev pub numbers : List UploadedPart → List ℕ
numbers parts = map (λ p. p.part_number) parts

module _ (s3 : S3) (accepts : String → ℕ → Bool) where
  -- The storage has taken the part at its URL.
  abbrev pub IsSent : PartUrl → UploadedPart → Type 0
  IsSent q p = (p.part_number ≡ q.part_number) × (accepts q.url p.size ≡ true)

  -- The storage documents that a URL which is signed for a length takes no body of another one.
  abbrev pub IsStrict : Type 0
  IsStrict =
      (key upload_id : String) (n signed ttl size : ℕ)
      → accepts (s3.signed_part key upload_id n signed ttl) size ≡ true
      → size ≡ signed

  pub sent-numbers :
      (urls : List PartUrl) (new : List UploadedPart)
      → Each IsSent urls new
      → numbers new ≡ map (λ q. q.part_number) urls
  sent-numbers [] [] e = refl
  sent-numbers [] (p ∷ new) e = absurd e
  sent-numbers (q ∷ urls) [] e = absurd e
  sent-numbers (q ∷ urls) (p ∷ new) ((same, taken), e) = ground (arith, sent-numbers urls new e)

  -- Each URL is signed for the length that the plan gives its part.
  abbrev pub IsPart : FileRow → ℕ → ℕ → UploadedPart → Type 0
  IsPart row n left p =
      (n ≤ p.part_number)
      × (p.part_number < n + left)
      × (p.size ≡ part_length (plan_of_row row) row.size p.part_number)

  wider :
      (row : FileRow) (n left : ℕ) (new : List UploadedPart)
      → All (IsPart row (n + 1) left) new
      → All (IsPart row n (suc left)) new
  wider row n left new all =
      All-map (IsPart row (n + 1) left) (IsPart row n (suc left)) new
        (λ p (lo, hi, size). (omega arith, omega arith, size)) all

  sent-first :
      (row : FileRow) (upload_id : String) (n left : ℕ) (rest : List PartUrl)
      (new : List UploadedPart)
      → IsStrict
      → ((more : List UploadedPart) → Each IsSent rest more → All (IsPart row (n + 1) left) more)
      → Each IsSent
          (record {
            part_number = n;
            url =
                s3.signed_part row.key upload_id n
                  (part_length (plan_of_row row) row.size n)
                  part_url_ttl_sec;
          }
            ∷ rest)
          new
      → All (IsPart row n (suc left)) new
  sent-first row upload_id n left rest [] strict ih e = absurd e
  sent-first row upload_id n left rest (p ∷ new) strict ih ((same, taken), e) = (
    (
      omega (arith, same),
      omega (arith, same),
      rw same (strict row.key upload_id n _ part_url_ttl_sec p.size taken),
    ),
    wider row n left new (ih new e),
  )

  pub sent-IsPart :
      (row : FileRow) (upload_id : String) (have : List ℕ) (n left : ℕ) (new : List UploadedPart)
      → IsStrict
      → Each IsSent (part_urls s3 row upload_id have n left) new
      → All (IsPart row n left) new
  unfolding part_urls
  sent-IsPart row upload_id have n zero [] strict e = tt
  sent-IsPart row upload_id have n zero (p ∷ new) strict e = absurd e
  sent-IsPart row upload_id have n (suc left) new strict e =
      let urls = part_urls s3 row upload_id have (n + 1) left in
      let ih : (more : List UploadedPart)
          → Each IsSent urls more
          → All (IsPart row (n + 1) left) more =
        λ more k. sent-IsPart row upload_id have (n + 1) left more strict k in
      elim (Bool-cases (any (◌==◌ n) have)) [
        | inl t ↦ wider row n left new (ih new (rw (t, part_urls) at e))
        | inr f ↦ sent-first row upload_id n left urls new strict ih (rw (f, part_urls) at e)
      ]
