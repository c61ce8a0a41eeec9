-- ===== src/Auth/Tables.antt =====
-- src/auth/tokens.ts, src/auth/auth.service.ts: roles, claims, the tables of the service, and its environment.
use nodejs_advanced_homework.Prelude.{
  ℕ, Bool, Option, none, some, List, String, str_eq, if◌then◌else◌,
}

abbrev pub access_ttl_sec : ℕ
access_ttl_sec = 600

abbrev pub refresh_ttl_sec : ℕ
refresh_ttl_sec = 2592000

pub data Role : Type 0 where
  buyer seller admin : Role

-- `isRole`, with the role
unfoldable pub is_role : String → Option Role
is_role value =
    if str_eq value "buyer"
    then some buyer
    else if str_eq value "seller"
    then some seller
    else if str_eq value "admin"
    then some admin
    else none

pub record AccessClaims : Type 0 where
  pub sub : String
  pub role : Role
  pub jti : String
  pub fid : String
  pub exp : ℕ

-- The rows of the tables `users`, `refresh_tokens`, `access_denylist` and `revoked_families`.
pub record User : Type 0 where
  pub id : String
  pub email : String
  pub password_hash : Option String
  pub role : String

pub record RefreshRow : Type 0 where
  pub token_hash : String
  pub family_id : String
  pub user_id : String
  pub expires_at : ℕ
  pub used_at : Option ℕ
  pub revoked_at : Option ℕ

pub record DeniedRow : Type 0 where
  pub jti : String
  pub expires_at : ℕ

pub record RevokedFamily : Type 0 where
  pub family_id : String
  pub expires_at : ℕ

pub record Db : Type 0 where
  pub users : List User
  pub refresh_tokens : List RefreshRow
  pub access_denylist : List DeniedRow
  pub revoked_families : List RevokedFamily

pub record Env : Type 0 where
  pub now : ℕ
  -- `refreshTokenHash(pepper, …)`
  pub hash : String → String
  -- `verifyPassword`
  pub verify_password : String → Option String → Bool
  -- `randomBytes` and `randomUUID`: the refresh token, the id of the access token, the new family
  pub refresh_token : String
  pub jti : String
  pub family_id : String
  -- `jwt.sign` and `jwt.verify` with the configured keys, algorithm, issuer and audience, followed by
  -- `readClaims`
  pub sign : AccessClaims → String
  pub verify : String → Option AccessClaims
  -- the expired rows that the batch of a sweep reaches, by key
  pub swept : String → Bool
  -- the transaction commits
  pub commits : Bool

pub record TokenPair : Type 0 where
  pub access_token : String
  pub refresh_token : String
  pub expires_in : ℕ

pub data Reply : Type 0 where
  pair : TokenPair → Reply
  done : Reply
  -- UnauthorizedException, and an error of the database
  unauthorized failed : Reply
