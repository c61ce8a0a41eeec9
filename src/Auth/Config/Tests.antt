-- ===== src/Auth/Config/Tests.antt =====
-- src/auth/config.ts: a process with all its variables, whose keys are numbers.
use nodejs_advanced_homework.Prelude.{
  if◌then◌else◌, ◌≡◌, refl, true, none, some, [], ◌∷◌, ◌⊎◌, ok, err, ◌==◌, Option, ℕ, String,
  str_eq, includes, starts_with,
}
use nodejs_advanced_homework.Auth.Guard.{Jwt}
use nodejs_advanced_homework.Auth.Config.{
  parse_key, assert_same_pair, parse_overlap, set_overlap, end, str, field, obj, Vars, Kind,
  private, public, KeyObjects, AuthConfig, missing, missing_secret, load_auth_config,
}
use nodejs_advanced_homework.Auth.Config.Loaded.{IsConfig, load_auth_config-IsConfig}

abbrev jwt : Jwt
jwt = record { Key = ℕ; kid = λ token. some "k1"; payload = λ token key. none }

abbrev key_of : Kind → String → Option ℕ
key_of private pem = some 1
key_of public pem = some (if str_eq pem "-----BEGIN old" then 3 else 2)

abbrev objects : KeyObjects ℕ
objects = record {
  of_base64 = λ s. s;
  create_key = key_of;
  is_p256 = λ key. true;
  signs_for = λ secret key. secret == 1;
  digest = λ key. "0123456789abcdef0123";
  parse_json = λ text. some (obj (field "k0" (str "-----BEGIN old") end));
}

abbrev vars : Vars
vars = record {
  jwt_private_key = some "-----BEGIN private";
  jwt_public_key = some "-----BEGIN public";
  jwt_kid = some " k1 ";
  refresh_token_pepper = some "pepper";
  jwt_public_keys = some "{}";
}

abbrev config : AuthConfig objects
config = record {
  kid = "k1";
  private_key = 1;
  public_keys = ("k0", 3) ∷ ("k1", 2) ∷ [];
  pepper = "pepper";
  fingerprint = "0123456789abcdef";
}

is_loaded : load_auth_config objects vars none ≡ (ok config, some config)
unfolding load_auth_config parse_key includes starts_with assert_same_pair parse_overlap set_overlap
is_loaded = refl

two_are_missing :
    load_auth_config objects (record vars { jwt_kid = some " "; refresh_token_pepper = none }) none
    ≡ (err (missing_secret ("JWT_KID" ∷ "REFRESH_TOKEN_PEPPER" ∷ [])), none)
unfolding load_auth_config missing
two_are_missing = refl

load_auth_config-IsConfig_example :
    IsConfig jwt objects config
    × (some config ≡ some config)
    × ((missing vars ≡ [])
        ⊎ (load_auth_config objects vars none ≡ (err (missing_secret (missing vars)), none)))
load_auth_config-IsConfig_example =
    load_auth_config-IsConfig jwt objects vars none (some config) config tt is_loaded
