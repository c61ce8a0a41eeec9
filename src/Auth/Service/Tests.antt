-- ===== src/Auth/Service/Tests.antt =====
-- src/auth/auth.service.ts: a session that is logged out, and a refresh token that is used twice.
use nodejs_advanced_homework.Prelude.{
  ℕ, ◌≤◌, refl, [], str_eq_iff, ◌∷◌, true, ◌≡◌, arith, some, List, none, String, ◌≢◌,
}
use nodejs_advanced_homework.Auth.Service.{
  issue_pair, find_user, login, is_role, sweep_expired, role_of, revoke_rows, new_row,
  revoke_family, unauthorized, mark_used, logout_db, insert_pair, pair, find_refresh, refresh_row,
  is_access_revoked, buyer, Env, Db, RefreshRow, AccessClaims, TokenPair, authenticate, refresh,
  logout,
}
use nodejs_advanced_homework.Auth.Service.Dead.{serve, log_in, Request, serve_all, IsDead}
use nodejs_advanced_homework.Auth.Service.Revocation.{logout-authenticate, logout-refresh}
use nodejs_advanced_homework.Auth.Service.Rotation.{refresh-reuse}

abbrev session : AccessClaims
session = record { sub = "1"; role = buyer; jti = "j1"; fid = "f1"; exp = 650 }

abbrev at : ℕ → String → Env
at now fresh = record {
  now = now;
  hash = λ s. s;
  verify_password = λ given hash. true;
  refresh_token = fresh;
  jti = "j2";
  family_id = "f2";
  sign = λ claims. "signed";
  verify = λ token. some session;
  swept = λ key. true;
  commits = true;
}

abbrev first_row : RefreshRow
first_row = record {
  token_hash = "r1";
  family_id = "f1";
  user_id = "1";
  expires_at = 5000;
  used_at = none;
  revoked_at = none;
}

abbrev signed_in : Db
signed_in = record {
  users = (record { id = "1"; email = "a@b.c"; password_hash = none; role = "buyer" }) ∷ [];
  refresh_tokens = first_row ∷ [];
  access_denylist = [];
  revoked_families = [];
}

abbrev a_later_login : List (Env × Request)
a_later_login = (at 150 "r2", log_in "A@b.c" "secret") ∷ []

abbrev signed_out : Db
signed_out = serve_all a_later_login (logout (at 100 "r0") session signed_in).1

f2_is_new : ◌≢◌ {A = String} "f2" "f1"
f2_is_new e = absurd (ground (arith, (str_eq_iff "f2" "f1").1 e))

before_logout : authenticate (at 200 "r3") (some "signed") signed_in ≡ some session
unfolding authenticate is_access_revoked
before_logout = refl

logout-authenticate_example : authenticate (at 200 "r3") (some "signed") signed_out ≡ none
logout-authenticate_example =
    logout-authenticate (at 100 "r0") (at 200 "r3") session session signed_in a_later_login "signed"
      refl (omega arith, f2_is_new, tt) (omega arith) refl (omega arith) refl (omega arith)

row_is_found : find_refresh "r1" signed_out ≡ some (record first_row { revoked_at = some 100 })
unfolding find_refresh serve_all serve logout logout_db revoke_family revoke_rows sweep_expired
    login find_user issue_pair insert_pair new_row is_role
row_is_found = refl

abbrev any_pair : TokenPair
any_pair = record { access_token = "a"; refresh_token = "r"; expires_in = 600 }

logout-refresh_example : (refresh (at 200 "r3") "r1" signed_out).0 ≢ pair any_pair
logout-refresh_example =
    logout-refresh (at 100 "r0") (at 200 "r3") session signed_in a_later_login "r1"
      (record first_row { revoked_at = some 100 }) any_pair refl (omega arith, f2_is_new, tt)
      row_is_found refl

abbrev second_pair : TokenPair
second_pair = record { access_token = "signed"; refresh_token = "r2"; expires_in = 600 }

abbrev rotated_db : Db
rotated_db = (refresh (at 100 "r2") "r1" signed_in).1

first_use : refresh (at 100 "r2") "r1" signed_in ≡ (pair second_pair, rotated_db)
unfolding refresh refresh_row find_refresh insert_pair mark_used new_row role_of is_role
first_use = refl

r2_is_new : ◌≢◌ {A = String} "r2" "r1"
r2_is_new e = absurd (ground (arith, (str_eq_iff "r2" "r1").1 e))

first_is_found : find_refresh "r1" signed_in ≡ some first_row
unfolding find_refresh
first_is_found = refl

-- another login of the same user, whose sweep keeps the row
abbrev between : List (Env × Request)
between = (at 150 "r3", log_in "A@b.c" "secret") ∷ []

r3_is_new : ◌≢◌ {A = String} "r3" "r1"
r3_is_new e = absurd (ground (arith, (str_eq_iff "r3" "r1").1 e))

refresh-reuse_example :
    ((refresh (at 200 "r4") "r1" (serve_all between rotated_db)).0 ≡ unauthorized)
    × (s : ℕ) × (s ≤ 200)
    × IsDead "f1" s 200 (refresh (at 200 "r4") "r1" (serve_all between rotated_db)).1
refresh-reuse_example =
    refresh-reuse (at 100 "r2") (at 200 "r4") "r1" signed_in rotated_db second_pair first_row
      between first_use first_is_found r2_is_new (omega arith, f2_is_new, tt) (r3_is_new, tt)
      (omega arith) (omega arith) refl refl
