-- ===== src/Auth/Guard.antt =====
-- src/auth/auth.guard.ts, src/auth/tokens.ts: from the header of a request to a viewer with a role. The library
-- jsonwebtoken is a parameter.
pub mod Admission
pub mod Tests
use Prim.Native.String.{String}
use Prim.Native.Char.{code}
use nodejs_advanced_homework.Prelude.{
  is_space, ℕ, zero, suc, Bool, true, false, not, ◌&&◌, ◌||◌, Option, none, some, List, [], ◌∷◌,
  str_eq, leb, ◌==◌, any, find?, if◌then◌else◌, Result, ok, err, has_prefix,
}
use nodejs_advanced_homework.Prelude.Json.{Json, null, bool, num, str, arr, obj}
use nodejs_advanced_homework.Auth.Tables.{
  AccessClaims, Role, buyer, seller, admin, Db, Env, is_role,
}
use nodejs_advanced_homework.Auth.Service.{authenticate}

abbrev pub trim_start : String → String
trim_start String.[] = ""
trim_start (String.◌∷◌ c s) =
    let rest = trim_start s in if is_space (code c) then rest else String.◌∷◌ c s

abbrev pub trim_end : String → String
trim_end String.[] = ""
trim_end (String.◌∷◌ c s) =
    let rest = trim_end s in if str_eq rest "" && is_space (code c) then "" else String.◌∷◌ c rest

abbrev pub slice : ℕ → String → String
slice zero s = s
slice (suc n) String.[] = ""
slice (suc n) (String.◌∷◌ c s) = slice n s

abbrev pub non_empty : String → Option String
non_empty s = if str_eq s "" then none else some s

unfoldable pub bearer_token : Option String → Option String
bearer_token none = none
bearer_token (some header) =
    if has_prefix "Bearer " header then non_empty (trim_end (trim_start (slice 7 header))) else none

-- UnauthorizedException and ForbiddenException
pub data Refusal : Type 0 where
  unauthorized forbidden : Refusal

-- `AuthGuard`: the user of the request
unfoldable pub auth_guard : Env → Option String → Db → Result Refusal AccessClaims
unfolding bearer_token
auth_guard env header db = elim (authenticate env (bearer_token header) db) [
  | none ↦ err unauthorized
  | some claims ↦ ok claims
]

abbrev pub same_role : Role → Role → Bool
same_role buyer r = elim r [ buyer ↦ true | seller ↦ false | admin ↦ false ]
same_role seller r = elim r [ buyer ↦ false | seller ↦ true | admin ↦ false ]
same_role admin r = elim r [ buyer ↦ false | seller ↦ false | admin ↦ true ]

abbrev has_role : List Role → Option AccessClaims → Result Refusal (Unit {0})
has_role roles none = err unauthorized
has_role roles (some user) = if any (same_role user.role) roles then ok tt else err forbidden

-- `RolesGuard`, with the roles that the handler or its class declares
unfoldable pub roles_guard : Option (List Role) → Option AccessClaims → Result Refusal (Unit {0})
roles_guard none user = ok tt
roles_guard (some []) user = ok tt
roles_guard (some (r ∷ rs)) user = has_role (r ∷ rs) user

abbrev role_checked :
    Option (List Role) → AccessClaims → Result Refusal (Unit {0}) → Result Refusal AccessClaims
role_checked roles claims (ok done) = ok claims
role_checked roles claims (err e) = err e

-- A route with both guards: the viewer that its handler is given.
unfoldable pub admit : Env → Option (List Role) → Option String → Db → Result Refusal AccessClaims
unfolding auth_guard roles_guard
admit env roles header db = elim (auth_guard env header db) [
  | err e ↦ err e
  | ok claims ↦ role_checked roles claims (roles_guard roles (some claims))
]

-- What jsonwebtoken has decoded.
pub record Payload : Type 0 where
  pub sub : Option String
  pub jti : Option String
  pub exp : Option ℕ
  pub role : Option Json
  pub fid : Option Json

abbrev pub text_of : Option Json → Option String
text_of none = none
text_of (some j) = elim j [
  | str s ↦ some s
  | null ↦ none
  | bool b ↦ none
  | num n ↦ none
  | arr a ↦ none
  | obj o ↦ none
]

abbrev truthy : Option String → Option String
truthy none = none
truthy (some s) = non_empty s

abbrev claims_of :
    Option String → Option String → Option ℕ → Option Role → Option String → Option AccessClaims
claims_of (some sub) (some jti) (some exp) (some role) (some fid) =
    some (record { sub = sub; role = role; jti = jti; fid = fid; exp = exp })
claims_of _ _ _ _ _ = none

abbrev role_of : Option String → Option Role
role_of none = none
role_of (some s) = is_role s

unfoldable pub read_claims : Payload → Option AccessClaims
read_claims p =
    claims_of (truthy p.sub) (truthy p.jti) p.exp (role_of (text_of p.role)) (text_of p.fid)

-- jsonwebtoken: the key id in the header of a token, and its payload if the key, the algorithm, the issuer,
-- the audience and the time fit.
pub record Jwt : Type 1 where
  pub Key : Type 0
  pub kid : String → Option String
  pub payload : String → Key → Option Payload

module _ (jwt : Jwt) where
  abbrev pub lookup : String → List (String × jwt.Key) → Option jwt.Key
  lookup kid keys = elim (find? (λ k. str_eq k.0 kid) keys) [ none ↦ none | some k ↦ some k.1 ]

  unfoldable pub key_for : List (String × jwt.Key) → Option String → Option jwt.Key
  key_for keys kid = elim (truthy kid) [ none ↦ none | some k ↦ lookup k keys ]

  -- `none` is a rejection
  unfoldable pub verify : List (String × jwt.Key) → String → Option AccessClaims
  unfolding key_for read_claims
  verify keys token = elim (key_for keys (jwt.kid token)) [
    | none ↦ none
    | some key ↦ elim (jwt.payload token key) [ none ↦ none | some p ↦ read_claims p ]
  ]
