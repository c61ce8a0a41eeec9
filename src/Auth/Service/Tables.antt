-- ===== src/Auth/Service/Tables.antt =====
-- src/auth/auth.service.ts: what the statements do to the rows of one family.
use nodejs_advanced_homework.Prelude.{
  ℕ, ◌≤◌, ◌≡◌, refl, Bool, true, false, not, ◌&&◌, some, List, [], ◌∷◌, String, str_eq, str_eq_iff,
  arith, any, find?, filter, update_where, is_some, leb, ◌⊎◌,
}
use nodejs_advanced_homework.Auth.Service.{
  RefreshRow, RevokedFamily, Env, sweeps, list_family, revoke_rows,
}

module _ {A : Type 0} (q : A → Bool) where
  pub any-find? :
      (p : A → Bool) (xs : List A) (x : A) → find? p xs ≡ some x → q x ≡ true → any q xs ≡ true
  any-find? p [] x h t = cc
  any-find? p (y ∷ ys) x h t = ground (arith, any-find? p ys x)

  pub any-update_where-false :
      (p : A → Bool) (f : A → A) (xs : List A)
      → ((x : A) → q x ≡ false → q (f x) ≡ false)
      → any q xs ≡ false
      → any q (update_where p f xs) ≡ false
  any-update_where-false p f [] keep h = refl
  any-update_where-false p f (x ∷ xs) keep h =
      ground (arith, keep x, any-update_where-false p f xs keep)

-- A refresh token of the family that is not revoked.
abbrev pub is_open : String → RefreshRow → Bool
is_open fid r = str_eq r.family_id fid && not (is_some r.revoked_at)

-- The family is listed as revoked at least until then.
abbrev pub is_listed : String → ℕ → RevokedFamily → Bool
is_listed fid until f = str_eq f.family_id fid && leb until f.expires_at

pub revoke_rows_self :
    (now : ℕ) (fid : String) (rows : List RefreshRow)
    → any (is_open fid) (revoke_rows now fid rows) ≡ false
unfolding revoke_rows
revoke_rows_self now fid [] = refl
revoke_rows_self now fid (r ∷ rs) = ground (arith, revoke_rows_self now fid rs)

pub revoke_rows-is_open :
    (now : ℕ) (g fid : String) (rows : List RefreshRow)
    → any (is_open fid) rows ≡ false
    → any (is_open fid) (revoke_rows now g rows) ≡ false
unfolding revoke_rows
revoke_rows-is_open now g fid [] h = refl
revoke_rows-is_open now g fid (r ∷ rs) h = ground (arith, revoke_rows-is_open now g fid rs)

list_family_update :
    (fid : String) (until expires_at : ℕ) (rows : List RevokedFamily)
    → until ≤ expires_at
    → any (λ r. str_eq r.family_id fid) rows ≡ true
    → any (is_listed fid until) (
        update_where (λ r. str_eq r.family_id fid) (λ r. record r { expires_at = expires_at }) rows)
      ≡ true
list_family_update fid until e [] h m = cc
list_family_update fid until e (r ∷ rs) h m = ground (arith, list_family_update fid until e rs)

pub list_family_self :
    (fid : String) (until expires_at : ℕ) (rows : List RevokedFamily)
    → until ≤ expires_at
    → any (is_listed fid until) (list_family fid expires_at rows) ≡ true
unfolding list_family
list_family_self fid until e rows h =
    ground (arith, list_family_update fid until e rows, str_eq_iff fid fid)

list_family_ne-update :
    (g fid : String) (until expires_at : ℕ) (rows : List RevokedFamily)
    → until ≤ expires_at
    → any (is_listed fid until) rows ≡ true
    → any
        (is_listed fid until)
        (update_where (λ r. str_eq r.family_id g) (λ r. record r { expires_at = expires_at }) rows)
      ≡ true
list_family_ne-update g fid until e [] k h = cc
list_family_ne-update g fid until e (r ∷ rs) k h =
    ground (arith, list_family_ne-update g fid until e rs)

-- Listing any family, for long enough, keeps the family listed.
pub list_family-is_listed :
    (g fid : String) (until expires_at : ℕ) (rows : List RevokedFamily)
    → until ≤ expires_at
    → any (is_listed fid until) rows ≡ true
    → any (is_listed fid until) (list_family g expires_at rows) ≡ true
unfolding list_family
list_family-is_listed g fid until e rows k h =
    ground (arith, list_family_ne-update g fid until e rows)

-- A sweep drops the listing only once its time is over.
pub sweep-is_listed :
    (env : Env) (fid : String) (until : ℕ) (rows : List RevokedFamily)
    → any (is_listed fid until) rows ≡ true
    → (any (is_listed fid until) (filter (λ r. not (sweeps env r.family_id r.expires_at)) rows)
        ≡ true)
      ⊎ (until ≤ env.now)
sweep-is_listed env fid until [] h = cc
sweep-is_listed env fid until (r ∷ rs) h = ground (arith, sweep-is_listed env fid until rs)
