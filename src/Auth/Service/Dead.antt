-- ===== src/Auth/Service/Dead.antt =====
-- src/auth/auth.service.ts: what keeps a revoked family dead: every operation of the service.
use nodejs_advanced_homework.Prelude.{
  any-filter-false, none, if◌then◌else◌, leb, Bool, is_some, Option, Option-cases, inr, some,
  Bool-cases, str_eq_iff, ℕ, ◌+◌, ◌≤◌, ◌≡◌, true, false, List, [], ◌∷◌, String, str_eq, arith, any,
  ◌⊎◌, inl, ◌≢◌,
}
use nodejs_advanced_homework.Auth.Service.{
  failed, role_of, is_role, unauthorized, rotate, find_user, login_as, Reply, find_refresh,
  logout_db, refresh_row, issue_pair, RefreshRow, Role, AccessClaims, Db, Env, access_ttl_sec,
  sweep_expired, revoke_family, insert_pair, login, refresh, logout, mark_used, new_row,
}
use nodejs_advanced_homework.Auth.Service.Tables.{
  any-find?, any-update_where-false, is_open, is_listed, revoke_rows_self, revoke_rows-is_open,
  list_family_self, list_family-is_listed, sweep-is_listed,
}

-- A family that was revoked at `since`: none of its refresh tokens is open, and it is listed until the
-- last access token that it could have been given has expired.
pub record IsDead (fid : String) (since now : ℕ) (db : Db) : Type 0 where
  pub rows : any (is_open fid) db.refresh_tokens ≡ false
  pub listed :
      (any (is_listed fid (since + access_ttl_sec)) db.revoked_families ≡ true)
      ⊎ (since + access_ttl_sec ≤ now)

-- What clients ask of the service.
pub data Request : Type 0 where
  log_in : (email password : String) → Request
  rotate_token : (token : String) → Request
  log_out : AccessClaims → Request

unfoldable pub serve : Env → Request → Db → Db
serve env (log_in email password) db = (login env email password db).1
serve env (rotate_token token) db = (refresh env token db).1
serve env (log_out claims) db = (logout env claims db).1

unfoldable pub serve_all : List (Env × Request) → Db → Db
serve_all [] db = db
serve_all ((env, r) ∷ rest) db = serve_all rest (serve env r db)

-- The clock does not go back, and no new login is given the family's id.

abbrev pub IsLater : String → ℕ → List (Env × Request) → Type 0
IsLater fid now [] = Unit {0}
IsLater fid now ((env, r) ∷ rest) =
    (now ≤ env.now) × (env.family_id ≢ fid) × IsLater fid env.now rest

-- The time at which a sequence of requests ends.
abbrev pub end_time : ℕ → List (Env × Request) → ℕ
end_time now [] = now
end_time now ((env, r) ∷ rest) = end_time env.now rest

module _ (env : Env) (fid : String) (since now : ℕ) (later : now ≤ env.now) where
  tick-IsDead : (db : Db) → IsDead fid since now db → IsDead fid since env.now db
  tick-IsDead db d = record { rows = d.rows; listed = ground (arith, d.listed) }

  pub sweep_expired-IsDead :
      (db : Db) → IsDead fid since now db → IsDead fid since env.now (sweep_expired env db)
  unfolding sweep_expired
  sweep_expired-IsDead db d = record {
    rows = any-filter-false (is_open fid) _ db.refresh_tokens d.rows;
    listed =
        ground
          (arith, d.listed, sweep-is_listed env fid (since + access_ttl_sec) db.revoked_families);
  }

  revoke_family-IsDead :
      (g : String) (db : Db)
      → since ≤ now
      → IsDead fid since now db
      → IsDead fid since env.now (revoke_family env g db)
  unfolding revoke_family
  revoke_family-IsDead g db s d = record {
    rows = revoke_rows-is_open env.now g fid db.refresh_tokens d.rows;
    listed = ground (
      arith,
      d.listed,
      list_family-is_listed g fid (since + access_ttl_sec) (env.now + access_ttl_sec)
          db.revoked_families,
    );
  }

  insert_pair-IsDead :
      (user : String) (role : Role) (g : String) (db : Db)
      → str_eq g fid ≡ false
      → IsDead fid since now db
      → IsDead fid since env.now (insert_pair env user role g db).1
  unfolding insert_pair new_row
  insert_pair-IsDead user role g db n d = record {
    rows = ground (arith, d.rows);
    listed = ground (arith, d.listed);
  }

  mark_used-IsDead :
      (hash : String) (db : Db)
      → IsDead fid since now db
      → IsDead fid since now (mark_used env hash db)
  unfolding mark_used
  mark_used-IsDead hash db d = record {
    rows =
        any-update_where-false (is_open fid) (λ (r : RefreshRow). str_eq r.token_hash hash)
          (λ r. record r { used_at = some env.now }) db.refresh_tokens (λ x e. e) d.rows;
    listed = d.listed;
  }

-- Revoking a family makes it dead.
pub revoke_family-IsDead_self :
    (env : Env) (fid : String) (db : Db) → IsDead fid env.now env.now (revoke_family env fid db)
unfolding revoke_family
revoke_family-IsDead_self env fid db = record {
  rows = revoke_rows_self env.now fid db.refresh_tokens;
  listed = inl (
      list_family_self fid (env.now + access_ttl_sec) (env.now + access_ttl_sec) db.revoked_families
        (omega arith));
}

module _ (env : Env) (fid : String) (since now : ℕ) (later : now ≤ env.now) (known : since ≤ now)
    (fresh : env.family_id ≢ fid) where
  commit-IsDead :
      (before : Db) (outcome : Reply × Db)
      → IsDead fid since env.now before
      → IsDead fid since env.now outcome.1
      → (b : Bool) → IsDead fid since env.now (if b then outcome else (failed, before)).1
  commit-IsDead before outcome d e true = e
  commit-IsDead before outcome d e false = d

  issue_pair-IsDead :
      (user : String) (role : Role) (db : Db)
      → IsDead fid since now db
      → IsDead fid since env.now (issue_pair env user role env.family_id db).1
  unfolding issue_pair
  issue_pair-IsDead user role db d =
      let swept = sweep_expired-IsDead env fid since now later db d in
      let added =
        insert_pair-IsDead env fid since env.now (omega arith) user role env.family_id
          (sweep_expired env db) (ground (arith, str_eq_iff env.family_id fid)) swept in
      commit-IsDead db _ (tick-IsDead env fid since now later db d) added env.commits

  login_as-IsDead :
      (role : Option Role) (user : String) (db : Db)
      → IsDead fid since now db
      → IsDead fid since env.now (login_as env role user db).1
  login_as-IsDead none user db d = tick-IsDead env fid since now later db d
  login_as-IsDead (some role) user db d = issue_pair-IsDead user role db d

  login-IsDead :
      (email password : String) (db : Db)
      → IsDead fid since now db
      → IsDead fid since env.now (login env email password db).1
  unfolding login
  login-IsDead email password db d = elim (Option-cases (find_user email db)) [
    | inl e ↦ rw (e, login) (tick-IsDead env fid since now later db d)
    | inr (user, e) ↦
        rw (e, login)
          (elim (Bool-cases (env.verify_password password user.password_hash)) [
            | inl v ↦ rw v (login_as-IsDead (is_role user.role) user.id db d)
            | inr v ↦ rw v (tick-IsDead env fid since now later db d)
          ])
  ]

  rotate-IsDead :
      (row : RefreshRow) (role : Option Role) (db : Db)
      → str_eq row.family_id fid ≡ false
      → IsDead fid since now db
      → IsDead fid since env.now (rotate env row role db).1
  rotate-IsDead row none db n d = tick-IsDead env fid since now later db d
  rotate-IsDead row (some role) db n d =
      insert_pair-IsDead env fid since now later row.user_id role row.family_id
        (mark_used env row.token_hash db) n
        (mark_used-IsDead env fid since now later row.token_hash db d)

  -- A row that is open belongs to another family.
  open_row-ne :
      (hash : String) (row : RefreshRow) (db : Db)
      → find_refresh hash db ≡ some row
      → is_some row.revoked_at ≡ false
      → IsDead fid since now db
      → str_eq row.family_id fid ≡ false
  unfolding find_refresh
  open_row-ne hash row db found o d = ground (
    arith,
    d.rows,
    any-find? (is_open fid) (λ (r : RefreshRow). str_eq r.token_hash hash) db.refresh_tokens row
        found,
  )

  refresh_row-IsDead :
      (hash : String) (row : RefreshRow) (db : Db)
      → find_refresh hash db ≡ some row
      → IsDead fid since now db
      → IsDead fid since env.now (refresh_row env row db).1
  unfolding refresh_row
  refresh_row-IsDead hash row db found d = elim (Bool-cases (is_some row.revoked_at)) [
    | inl r ↦ rw r (tick-IsDead env fid since now later db d)
    | inr o ↦ rw o (elim (Bool-cases (is_some row.used_at)) [
      | inl u ↦ rw u (revoke_family-IsDead env fid since now later row.family_id db known d)
      | inr n ↦ rw n (elim (Bool-cases (leb row.expires_at env.now)) [
        | inl x ↦ rw x (tick-IsDead env fid since now later db d)
        | inr l ↦
            rw l
              (rotate-IsDead row (role_of row.user_id db) db (open_row-ne hash row db found o d) d)
      ])
    ])
  ]

  refresh-IsDead :
      (token : String) (db : Db)
      → IsDead fid since now db
      → IsDead fid since env.now (refresh env token db).1
  unfolding refresh
  refresh-IsDead token db d =
      let same = tick-IsDead env fid since now later db d in
      elim (Option-cases (find_refresh (env.hash token) db)) [
        | inl e ↦ rw (e, refresh) (commit-IsDead db (unauthorized, db) same same env.commits)
        | inr (row, e) ↦
            rw (e, refresh) (commit-IsDead db _ same (refresh_row-IsDead _ row db e d) env.commits)
      ]

  logout-IsDead :
      (claims : AccessClaims) (db : Db)
      → IsDead fid since now db
      → IsDead fid since env.now (logout env claims db).1
  unfolding logout logout_db
  logout-IsDead claims db d =
      let r = revoke_family-IsDead env fid since now later claims.fid db known d in
      commit-IsDead db _ (tick-IsDead env fid since now later db d)
        (sweep_expired-IsDead env fid since env.now (omega arith) _
          (record { rows = r.rows; listed = r.listed }))
        env.commits

  pub serve-IsDead :
      (r : Request) (db : Db) → IsDead fid since now db → IsDead fid since env.now (serve env r db)
  unfolding serve
  serve-IsDead (log_in email password) db d = login-IsDead email password db d
  serve-IsDead (rotate_token token) db d = refresh-IsDead token db d
  serve-IsDead (log_out claims) db d = logout-IsDead claims db d

pub serve_all-IsDead :
    (fid : String) (since now : ℕ) (rest : List (Env × Request)) (db : Db)
    → since ≤ now
    → IsLater fid now rest
    → IsDead fid since now db
    → IsDead fid since (end_time now rest) (serve_all rest db)
unfolding serve_all
serve_all-IsDead fid since now [] db s l d = d
serve_all-IsDead fid since now ((env, r) ∷ rest) db s (le, fresh, l) d =
    serve_all-IsDead fid since env.now rest (serve env r db) (omega arith) l
      (serve-IsDead env fid since now le s fresh r db d)
