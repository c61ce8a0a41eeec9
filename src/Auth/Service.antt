-- ===== src/Auth/Service.antt =====
-- src/auth/auth.service.ts, src/auth/tokens.ts: login, rotation of refresh tokens, logout, and the one
-- place where an access token becomes an identity. Times are in seconds. The password check, HMAC,
-- random values, the JWT library and the rows that a sweep reaches are the environment.
pub mod Tests
pub mod Tables
pub mod Rotation
pub mod Dead
pub mod Spent
pub mod Held
pub mod Revocation
use nodejs_advanced_homework.Prelude.{
  ℕ, ◌+◌, Bool, true, false, not, ◌&&◌, ◌||◌, Option, none, some, List, [], ◌∷◌, ◌++◌, String,
  str_eq, ltb, leb, ◌==◌, if◌then◌else◌, any, find?, filter, update_where, is_some, map, codes,
  lower,
}
pub use nodejs_advanced_homework.Auth.Tables.{
  access_ttl_sec, refresh_ttl_sec, Role, AccessClaims, User, RefreshRow, DeniedRow, RevokedFamily,
  Db, Env, TokenPair, Reply, buyer, seller, admin, pair, done, unauthorized, failed,
}
unfoldable pub use nodejs_advanced_homework.Auth.Tables.{is_role}

-- `DELETE … WHERE expires_at <= now()`, in a bounded batch
abbrev sweeps : Env → String → ℕ → Bool
sweeps env key expires_at = leb expires_at env.now && env.swept key

unfoldable pub sweep_expired : Env → Db → Db
sweep_expired env db = record db {
  refresh_tokens = filter (λ r. not (sweeps env r.token_hash r.expires_at)) db.refresh_tokens;
  access_denylist = filter (λ r. not (sweeps env r.jti r.expires_at)) db.access_denylist;
  revoked_families = filter (λ r. not (sweeps env r.family_id r.expires_at)) db.revoked_families;
}

-- `INSERT … ON CONFLICT (family_id) DO UPDATE SET expires_at = EXCLUDED.expires_at`
unfoldable pub list_family : String → ℕ → List RevokedFamily → List RevokedFamily
list_family family_id expires_at rows =
    if any (λ r. str_eq r.family_id family_id) rows
    then update_where (λ r. str_eq r.family_id family_id)
        (λ r. record r { expires_at = expires_at }) rows
    else (record { family_id = family_id; expires_at = expires_at }) ∷ rows

unfoldable pub deny_access : String → ℕ → List DeniedRow → List DeniedRow
deny_access jti expires_at rows =
    if any (λ r. str_eq r.jti jti) rows
    then update_where (λ r. str_eq r.jti jti) (λ r. record r { expires_at = expires_at }) rows
    else (record { jti = jti; expires_at = expires_at }) ∷ rows

-- `UPDATE refresh_tokens SET revoked_at = now() WHERE family_id = $1 AND revoked_at IS NULL`
unfoldable pub revoke_rows : ℕ → String → List RefreshRow → List RefreshRow
revoke_rows now family_id rows =
    update_where (λ r. str_eq r.family_id family_id && not (is_some r.revoked_at))
      (λ r. record r { revoked_at = some now }) rows

unfoldable pub revoke_family : Env → String → Db → Db
revoke_family env family_id db = record db {
  refresh_tokens = revoke_rows env.now family_id db.refresh_tokens;
  revoked_families = list_family family_id (env.now + access_ttl_sec) db.revoked_families;
}

unfoldable pub new_row : Env → String → String → RefreshRow
new_row env user_id family_id = record {
  token_hash = env.hash env.refresh_token;
  family_id = family_id;
  user_id = user_id;
  expires_at = env.now + refresh_ttl_sec;
  used_at = none;
  revoked_at = none;
}

abbrev claims_of : Env → String → Role → String → AccessClaims
claims_of env user_id role family_id = record {
  sub = user_id;
  role = role;
  jti = env.jti;
  fid = family_id;
  exp = env.now + access_ttl_sec;
}

unfoldable pub insert_pair : Env → String → Role → String → Db → Reply × Db
insert_pair env user_id role family_id db = (
  pair (record {
    access_token = env.sign (claims_of env user_id role family_id);
    refresh_token = env.refresh_token;
    expires_in = access_ttl_sec;
  }),
  record db { refresh_tokens = new_row env user_id family_id ∷ db.refresh_tokens },
)

-- A transaction that does not commit throws, and leaves the tables as they were.
abbrev commit : Env → Db → Reply × Db → Reply × Db
commit env before outcome = if env.commits then outcome else (failed, before)

-- `lower(email) = lower($1)`
abbrev same_text : List ℕ → List ℕ → Bool
same_text [] [] = true
same_text [] (d ∷ t) = false
same_text (c ∷ s) [] = false
same_text (c ∷ s) (d ∷ t) = lower c == lower d && same_text s t

unfoldable pub find_user : String → Db → Option User
find_user email db = find? (λ u. same_text (codes u.email) (codes email)) db.users

unfoldable pub issue_pair : Env → String → Role → String → Db → Reply × Db
issue_pair env user_id role family_id db =
    commit env db (insert_pair env user_id role family_id (sweep_expired env db))

abbrev login_as : Env → Option Role → String → Db → Reply × Db
login_as env none user_id db = (unauthorized, db)
login_as env (some role) user_id db = issue_pair env user_id role env.family_id db

-- `email` is the trimmed address
unfoldable pub login : Env → String → String → Db → Reply × Db
login env email password db = elim (find_user email db) [
  | none ↦ (unauthorized, db)
  | some user ↦
      if env.verify_password password user.password_hash
      then login_as env (is_role user.role) user.id db
      else (unauthorized, db)
]

unfoldable pub find_refresh : String → Db → Option RefreshRow
find_refresh hash db = find? (λ r. str_eq r.token_hash hash) db.refresh_tokens

unfoldable pub role_of : String → Db → Option Role
role_of user_id db = elim (find? (λ (u : User). str_eq u.id user_id) db.users) [
  | none ↦ none
  | some u ↦ is_role u.role
]

unfoldable pub mark_used : Env → String → Db → Db
mark_used env hash db = record db {
  refresh_tokens =
      update_where (λ r. str_eq r.token_hash hash) (λ r. record r { used_at = some env.now })
        db.refresh_tokens;
}

abbrev rotate : Env → RefreshRow → Option Role → Db → Reply × Db
rotate env row none db = (unauthorized, db)
rotate env row (some role) db =
    insert_pair env row.user_id role row.family_id (mark_used env row.token_hash db)

-- a used token is the theft signal: its family is revoked, and that commits
unfoldable pub refresh_row : Env → RefreshRow → Db → Reply × Db
refresh_row env row db =
    if is_some row.revoked_at
    then (unauthorized, db)
    else if is_some row.used_at
    then (unauthorized, revoke_family env row.family_id db)
    else if leb row.expires_at env.now
    then (unauthorized, db)
    else rotate env row (role_of row.user_id db) db

unfoldable pub refresh : Env → String → Db → Reply × Db
refresh env token db = elim (find_refresh (env.hash token) db) [
  | none ↦ commit env db (unauthorized, db)
  | some row ↦ commit env db (refresh_row env row db)
]

unfoldable pub logout_db : Env → AccessClaims → Db → Db
logout_db env claims db =
    let revoked = revoke_family env claims.fid db in
    sweep_expired env (record revoked {
      access_denylist = deny_access claims.jti claims.exp revoked.access_denylist;
    })

unfoldable pub logout : Env → AccessClaims → Db → Reply × Db
logout env claims db = commit env db (done, logout_db env claims db)

unfoldable pub is_access_revoked : Env → AccessClaims → Db → Bool
is_access_revoked env claims db =
    any (λ f. str_eq f.family_id claims.fid && ltb env.now f.expires_at) db.revoked_families
    || any (λ d. str_eq d.jti claims.jti && ltb env.now d.expires_at) db.access_denylist

abbrev unless_revoked : Env → Db → Option AccessClaims → Option AccessClaims
unless_revoked env db none = none
unless_revoked env db (some claims) = if is_access_revoked env claims db then none else some claims

-- `none` is UnauthorizedException. An empty token is no token.
unfoldable pub authenticate : Env → Option String → Db → Option AccessClaims
authenticate env none db = none
authenticate env (some token) db =
    if str_eq token "" then none else unless_revoked env db (env.verify token)
