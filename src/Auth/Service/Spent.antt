-- ===== src/Auth/Service/Spent.antt =====
-- src/auth/auth.service.ts: the row of a refresh token that has been used, through every later operation.
use nodejs_advanced_homework.Prelude.{
  ◌≡◌, ◌≢◌, refl, ◌∙◌, subst, arith, ℕ, ◌<◌, Bool, true, false, not, ◌&&◌, Option, none, some,
  is_some, List, [], ◌∷◌, String, str_eq, str_eq_iff, leb, if◌then◌else◌, find?, filter,
  update_where, Bool-cases, Option-cases, inl, inr, ◌⊎◌,
}
use nodejs_advanced_homework.Auth.Service.{
  Role, RefreshRow, AccessClaims, Db, Env, Reply, failed, unauthorized, sweep_expired, revoke_rows,
  revoke_family, new_row, insert_pair, issue_pair, login_as, login, find_user, find_refresh,
  role_of, is_role, mark_used, rotate, refresh_row, refresh, logout_db, logout,
}
use nodejs_advanced_homework.Auth.Service.Dead.{
  IsDead, Request, log_in, rotate_token, log_out, serve, sweep_expired-IsDead,
  revoke_family-IsDead_self,
}

-- A row of the family that was used, and is kept until `until`.
pub record IsSpent (fid : String) (until : ℕ) (row : RefreshRow) : Type 0 where
  pub family : row.family_id ≡ fid
  pub used : is_some row.used_at ≡ true
  pub expires : row.expires_at ≡ until

find?-filter :
    (p q : RefreshRow → Bool) (xs : List RefreshRow) (x : RefreshRow)
    → q x ≡ true
    → find? p xs ≡ some x
    → find? p (filter q xs) ≡ some x
find?-filter p q [] x k h = cc
find?-filter p q (y ∷ ys) x k h = ground (arith, find?-filter p q ys x k)

find?-update_where :
    (p q : RefreshRow → Bool) (f : RefreshRow → RefreshRow) (xs : List RefreshRow) (x : RefreshRow)
    → ((y : RefreshRow) → p (f y) ≡ p y)
    → find? p xs ≡ some x
    → find? p (update_where q f xs) ≡ some (if q x then f x else x)
find?-update_where p q f [] x keep h = cc
find?-update_where p q f (y ∷ ys) x keep h =
    ground (arith, keep y, find?-update_where p q f ys x keep)

module _ (env : Env) (hash fid : String) (until : ℕ) (valid : env.now < until)
    (fresh : env.hash env.refresh_token ≢ hash) where
  -- The row is still there and spent; and if it was revoked just now, its family is dead.
  pub record Kept (row : RefreshRow) (db : Db) : Type 0 where
    pub now_row : RefreshRow
    pub found : find_refresh hash db ≡ some now_row
    pub spent : IsSpent fid until now_row
    pub revoked : (now_row.revoked_at ≡ row.revoked_at) ⊎ IsDead fid env.now env.now db

  stays :
      (row : RefreshRow) (db : Db)
      → find_refresh hash db ≡ some row
      → IsSpent fid until row
      → Kept row db
  stays row db found spent = record {
    now_row = row;
    found = found;
    spent = spent;
    revoked = inl refl;
  }

  sweep_expired-find :
      (row : RefreshRow) (db : Db)
      → find_refresh hash db ≡ some row
      → IsSpent fid until row
      → find_refresh hash (sweep_expired env db) ≡ some row
  unfolding find_refresh sweep_expired
  sweep_expired-find row db found spent =
      find?-filter (λ r. str_eq r.token_hash hash) _ db.refresh_tokens row
        (ground (arith, spent.expires)) found

  insert_pair-find :
      (user : String) (role : Role) (family : String) (db : Db)
      → find_refresh hash (insert_pair env user role family db).1 ≡ find_refresh hash db
  unfolding find_refresh insert_pair new_row
  insert_pair-find user role family db =
      ground (arith, str_eq_iff (env.hash env.refresh_token) hash)

  rotate-Kept :
      (other : RefreshRow) (role : Option Role) (row : RefreshRow) (db : Db)
      → find_refresh hash db ≡ some row
      → IsSpent fid until row
      → Kept row (rotate env other role db).1
  unfolding find_refresh mark_used
  rotate-Kept other none row db found spent = stays row db found spent
  rotate-Kept other (some role) row db found spent =
      let marked =
        find?-update_where (λ r. str_eq r.token_hash hash)
          (λ r. str_eq r.token_hash other.token_hash) (λ r. record r { used_at = some env.now })
          db.refresh_tokens row (λ y. refl) found in
      let there =
        insert_pair-find other.user_id role other.family_id (mark_used env other.token_hash db) in
      elim (Bool-cases (str_eq row.token_hash other.token_hash)) [
        | inl t ↦ record {
          now_row = record row { used_at = some env.now };
          found = there ∙ (rw t at marked);
          spent = record { family = spent.family; used = refl; expires = spent.expires };
          revoked = inl refl;
        }
        | inr f ↦ record {
          now_row = row;
          found = there ∙ (rw f at marked);
          spent = spent;
          revoked = inl refl;
        }
      ]

  revoke_family-Kept :
      (g : String) (row : RefreshRow) (db : Db)
      → find_refresh hash db ≡ some row
      → IsSpent fid until row
      → Kept row (revoke_family env g db)
  unfolding find_refresh revoke_family revoke_rows
  revoke_family-Kept g row db found spent =
      let there =
        find?-update_where (λ r. str_eq r.token_hash hash)
          (λ r. str_eq r.family_id g && not (is_some r.revoked_at))
          (λ r. record r { revoked_at = some env.now }) db.refresh_tokens row (λ y. refl) found in
      elim (Bool-cases (str_eq row.family_id g && not (is_some row.revoked_at))) [
        | inl t ↦
            let same : g ≡ fid = ground (arith, str_eq_iff row.family_id g, spent.family) in
            record {
              now_row = record row { revoked_at = some env.now };
              found = rw t at there;
              spent = record { family = spent.family; used = spent.used; expires = spent.expires };
              revoked = inr (
                  subst (λ f. IsDead f env.now env.now (revoke_family env g db)) same
                    (revoke_family-IsDead_self env g db));
            }
        | inr f ↦ record { now_row = row; found = rw f at there; spent = spent; revoked = inl refl }
      ]

  if-Kept :
      (row : RefreshRow) (x y : Reply × Db)
      → Kept row x.1
      → Kept row y.1
      → (b : Bool) → Kept row (if b then x else y).1
  if-Kept row x y k l true = k
  if-Kept row x y k l false = l

  issue_pair-Kept :
      (user : String) (role : Role) (family : String) (row : RefreshRow) (db : Db)
      → find_refresh hash db ≡ some row
      → IsSpent fid until row
      → Kept row (issue_pair env user role family db).1
  unfolding issue_pair
  issue_pair-Kept user role family row db found spent =
      if-Kept row _ (failed, db)
        (stays row _
          (insert_pair-find user role family (sweep_expired env db)
            ∙ sweep_expired-find row db found spent)
          spent)
        (stays row db found spent) env.commits

  login_as-Kept :
      (role : Option Role) (user : String) (row : RefreshRow) (db : Db)
      → find_refresh hash db ≡ some row
      → IsSpent fid until row
      → Kept row (login_as env role user db).1
  login_as-Kept none user row db found spent = stays row db found spent
  login_as-Kept (some role) user row db found spent =
      issue_pair-Kept user role env.family_id row db found spent

  login-Kept :
      (email password : String) (row : RefreshRow) (db : Db)
      → find_refresh hash db ≡ some row
      → IsSpent fid until row
      → Kept row (login env email password db).1
  unfolding login
  login-Kept email password row db found spent = elim (Option-cases (find_user email db)) [
    | inl e ↦ rw (e, login) (stays row db found spent)
    | inr (user, e) ↦
        rw (e, login)
          (if-Kept row _ (unauthorized, db)
            (login_as-Kept (is_role user.role) user.id row db found spent)
            (stays row db found spent) (env.verify_password password user.password_hash))
  ]

  refresh_row-Kept :
      (other row : RefreshRow) (db : Db)
      → find_refresh hash db ≡ some row
      → IsSpent fid until row
      → Kept row (refresh_row env other db).1
  unfolding refresh_row
  refresh_row-Kept other row db found spent =
      let same = stays row db found spent in
      if-Kept row (unauthorized, db) _ same
        (if-Kept row (unauthorized, revoke_family env other.family_id db) _
          (revoke_family-Kept other.family_id row db found spent)
          (if-Kept row (unauthorized, db) _ same
            (rotate-Kept other (role_of other.user_id db) row db found spent)
            (leb other.expires_at env.now))
          (is_some other.used_at))
        (is_some other.revoked_at)

  refresh-Kept :
      (token : String) (row : RefreshRow) (db : Db)
      → find_refresh hash db ≡ some row
      → IsSpent fid until row
      → Kept row (refresh env token db).1
  unfolding refresh
  refresh-Kept token row db found spent =
      let same = stays row db found spent in
      elim (Option-cases (find_refresh (env.hash token) db)) [
        | inl e ↦
            rw (e, refresh) (if-Kept row (unauthorized, db) (failed, db) same same env.commits)
        | inr (other, e) ↦
            rw (e, refresh)
              (if-Kept row _ (failed, db) (refresh_row-Kept other row db found spent) same
                env.commits)
      ]

  logout-Kept :
      (claims : AccessClaims) (row : RefreshRow) (db : Db)
      → find_refresh hash db ≡ some row
      → IsSpent fid until row
      → Kept row (logout env claims db).1
  unfolding logout logout_db find_refresh
  logout-Kept claims row db found spent =
      let k = revoke_family-Kept claims.fid row db found spent in
      if-Kept row _ (failed, db)
        (record {
          now_row = k.now_row;
          found = sweep_expired-find k.now_row _ k.found k.spent;
          spent = k.spent;
          revoked = elim k.revoked [
            | inl same ↦ inl same
            | inr d ↦ inr (
                sweep_expired-IsDead env fid env.now env.now (omega arith) _
                  (record { rows = d.rows; listed = d.listed }))
          ];
        })
        (stays row db found spent) env.commits

  pub serve-Kept :
      (r : Request) (row : RefreshRow) (db : Db)
      → find_refresh hash db ≡ some row
      → IsSpent fid until row
      → Kept row (serve env r db)
  unfolding serve
  serve-Kept (log_in email password) row db found spent =
      login-Kept email password row db found spent
  serve-Kept (rotate_token token) row db found spent = refresh-Kept token row db found spent
  serve-Kept (log_out claims) row db found spent = logout-Kept claims row db found spent
