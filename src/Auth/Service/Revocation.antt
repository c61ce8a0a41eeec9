-- ===== src/Auth/Service/Revocation.antt =====
-- src/auth/auth.service.ts: a revoked family stays dead, through every later operation.
use nodejs_advanced_homework.Prelude.{
  ltb, ◌&&◌, ap, ◌<◌, none, if◌then◌else◌, Bool, some, str_eq_iff, ℕ, ◌+◌, ◌≤◌, ◌≡◌, true, false,
  List, [], ◌∷◌, String, str_eq, arith, any, ◌≢◌,
}
use nodejs_advanced_homework.Auth.Service.Dead.{
  IsDead, Request, serve_all, IsLater, end_time, sweep_expired-IsDead, serve_all-IsDead,
  revoke_family-IsDead_self,
}
use nodejs_advanced_homework.Auth.Service.{
  RevokedFamily, pair, is_access_revoked, TokenPair, authenticate, failed, Reply, find_refresh,
  logout_db, refresh_row, RefreshRow, AccessClaims, Db, Env, access_ttl_sec, refresh, logout,
}
use nodejs_advanced_homework.Auth.Service.Tables.{any-find?, is_open, is_listed}

pub IsDead-if :
    (fid : String) (since now : ℕ) (x y : Reply × Db)
    → IsDead fid since now x.1
    → (b : Bool) → b ≡ true
    → IsDead fid since now (if b then x else y).1
IsDead-if fid since now x y d true e = d
IsDead-if fid since now x y d false e = cc

listed_revokes :
    (fid : String) (until now : ℕ) (rows : List RevokedFamily)
    → now < until
    → any (is_listed fid until) rows ≡ true
    → any (λ f. str_eq f.family_id fid && ltb now f.expires_at) rows ≡ true
listed_revokes fid until now [] h k = cc
listed_revokes fid until now (r ∷ rs) h k = ground (arith, listed_revokes fid until now rs h)

-- What is left of a dead family: no refresh, and no access token that was issued before it died.
pub authenticate_dead :
    (env : Env) (fid : String) (since now : ℕ) (db : Db) (token : String) (c : AccessClaims)
    → IsDead fid since now db
    → now ≤ env.now
    → env.verify token ≡ some c
    → env.now < c.exp
    → c.fid ≡ fid
    → c.exp ≤ since + access_ttl_sec
    → authenticate env (some token) db ≡ none
unfolding authenticate is_access_revoked
authenticate_dead env fid since now db token c d le v live same old = ground (
  arith,
  d.listed,
  listed_revokes c.fid (since + access_ttl_sec) env.now db.revoked_families (omega arith),
  ap (λ x. any (is_listed x (since + access_ttl_sec)) db.revoked_families) same,
)

pub refresh_dead :
    (env : Env) (fid : String) (since now : ℕ) (db : Db) (token : String) (row : RefreshRow)
    (p : TokenPair)
    → IsDead fid since now db
    → find_refresh (env.hash token) db ≡ some row
    → row.family_id ≡ fid
    → (refresh env token db).0 ≢ pair p
unfolding refresh refresh_row find_refresh
refresh_dead env fid since now db token row p d found same = ground (
  arith,
  d.rows,
  any-find? (is_open fid) (λ (r : RefreshRow). str_eq r.token_hash (env.hash token))
      db.refresh_tokens row found,
  str_eq_iff row.family_id fid,
)

logout-IsDead_self :
    (env : Env) (claims : AccessClaims) (db : Db)
    → env.commits ≡ true
    → IsDead claims.fid env.now env.now (logout env claims db).1
unfolding logout logout_db
logout-IsDead_self env claims db c =
    let r = revoke_family-IsDead_self env claims.fid db in
    IsDead-if claims.fid env.now env.now _ (failed, db)
      (sweep_expired-IsDead env claims.fid env.now env.now (omega arith) _
        (record { rows = r.rows; listed = r.listed }))
      env.commits c

-- After a logout that committed, and any later logins, refreshes and logouts of any clients, no access
-- token of the login authenticates that could have been issued by then, however long it would
-- still live. (The clock does not go back, and no new login is given the family's id.)
pub logout-authenticate :
    (env env' : Env) (claims c : AccessClaims) (db : Db) (rest : List (Env × Request))
    (token : String)
    → env.commits ≡ true
    → IsLater claims.fid env.now rest
    → end_time env.now rest ≤ env'.now
    → env'.verify token ≡ some c
    → env'.now < c.exp
    → c.fid ≡ claims.fid
    → c.exp ≤ env.now + access_ttl_sec
    → authenticate env' (some token) (serve_all rest (logout env claims db).1) ≡ none
logout-authenticate env env' claims c db rest token done later le v live same old =
    authenticate_dead env' claims.fid env.now (end_time env.now rest) _ token c
      (serve_all-IsDead claims.fid env.now env.now rest _ (omega arith) later
        (logout-IsDead_self env claims db done))
      le v live same old

-- Nor does any refresh token of the login give a new pair.
pub logout-refresh :
    (env env' : Env) (claims : AccessClaims) (db : Db) (rest : List (Env × Request))
    (token : String) (row : RefreshRow) (p : TokenPair)
    → env.commits ≡ true
    → IsLater claims.fid env.now rest
    → find_refresh (env'.hash token) (serve_all rest (logout env claims db).1) ≡ some row
    → row.family_id ≡ claims.fid
    → (refresh env' token (serve_all rest (logout env claims db).1)).0 ≢ pair p
logout-refresh env env' claims db rest token row p done later found same =
    refresh_dead env' claims.fid env.now (end_time env.now rest) _ token row p
      (serve_all-IsDead claims.fid env.now env.now rest _ (omega arith) later
        (logout-IsDead_self env claims db done))
      found same
