-- ===== src/Auth/Guard/Tests.antt =====
-- src/auth/auth.guard.ts: a buyer at a route for sellers, and at one for everybody.
use nodejs_advanced_homework.Prelude.{
  ◌≡◌, ◌↔◌, refl, true, none, some, [], ◌∷◌, ok, err, has_prefix, starts_with,
}
use nodejs_advanced_homework.Auth.Tables.{AccessClaims, buyer, seller, admin, Db, Env}
use nodejs_advanced_homework.Auth.Service.{authenticate, is_access_revoked}
use nodejs_advanced_homework.Auth.Guard.{bearer_token, admit, unauthorized, forbidden}
use nodejs_advanced_homework.Auth.Guard.Admission.{IsAllowed, admit-IsAllowed}

abbrev session : AccessClaims
session = record { sub = "1"; role = buyer; jti = "j1"; fid = "f1"; exp = 650 }

abbrev env : Env
env = record {
  now = 200;
  hash = λ s. s;
  verify_password = λ given hash. true;
  refresh_token = "r";
  jti = "j2";
  family_id = "f2";
  sign = λ claims. "signed";
  verify = λ token. some session;
  swept = λ key. true;
  commits = true;
}

abbrev nothing : Db
nothing = record { users = []; refresh_tokens = []; access_denylist = []; revoked_families = [] }

token_is_read : bearer_token (some "Bearer  abc ") ≡ some "abc"
unfolding bearer_token has_prefix starts_with
token_is_read = refl

buyer_is_refused :
    admit env (some (seller ∷ admin ∷ [])) (some "Bearer abc") nothing ≡ err forbidden
unfolding admit authenticate is_access_revoked bearer_token has_prefix starts_with
buyer_is_refused = refl

admit-IsAllowed_example :
    ((admit env (some (seller ∷ [])) (some "Bearer abc") nothing ≡ ok session) ↔ (
      (authenticate env (bearer_token (some "Bearer abc")) nothing ≡ some session)
      × IsAllowed (some (seller ∷ [])) session))
    × ((admit env (some (seller ∷ [])) (some "Bearer abc") nothing ≡ err unauthorized)
        ↔ (authenticate env (bearer_token (some "Bearer abc")) nothing ≡ none))
    × ((admit env (some (seller ∷ [])) (some "Bearer abc") nothing ≡ err forbidden) ↔ (
        (c : AccessClaims) × (authenticate env (bearer_token (some "Bearer abc")) nothing ≡ some c)
        × (¬ IsAllowed (some (seller ∷ [])) c)))
admit-IsAllowed_example =
    admit-IsAllowed env (some (seller ∷ [])) (some "Bearer abc") nothing session
