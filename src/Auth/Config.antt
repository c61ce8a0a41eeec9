-- ===== src/Auth/Config.antt =====
-- src/auth/config.ts: the keys and secrets that a process starts with. node:crypto is a parameter.
pub mod Loaded
pub mod Tests
use nodejs_advanced_homework.Prelude.{
  zero, suc, ℕ, Bool, true, false, not, ◌&&◌, Option, none, some, List, [], ◌∷◌, ◌++◌, String,
  str_eq, codes, if◌then◌else◌, Result, ok, err, includes,
}
use nodejs_advanced_homework.Prelude.Json.{Json, null, bool, num, str, arr, obj, Fields, end, field}
use nodejs_advanced_homework.Auth.Guard.{trim_start, trim_end, non_empty, text_of}

-- What the environment holds; `none` is not set.
pub record Vars : Type 0 where
  pub jwt_private_key : Option String
  pub jwt_public_key : Option String
  pub jwt_kid : Option String
  pub refresh_token_pepper : Option String
  pub jwt_public_keys : Option String

pub data Kind : Type 0 where
  private public : Kind

-- the variable that a key is read from
pub data KeyName : Type 0 where
  own_private own_public : KeyName
  overlap : String → KeyName

pub data ConfigError : Type 0 where
  missing_secret : List String → ConfigError
  not_pem : KeyName → ConfigError
  not_parsed : KeyName → Kind → ConfigError
  not_p256 : KeyName → ConfigError
  not_one_pair not_json not_an_object : ConfigError
  empty_entry : String → ConfigError

pub record KeyObjects (Key : Type 0) : Type 0 where
  -- `Buffer.from(…, 'base64').toString('utf8')`
  pub of_base64 : String → String
  pub create_key : Kind → String → Option Key
  -- an EC key on prime256v1
  pub is_p256 : Key → Bool
  -- `verify` with the second key of what `sign` with the first made of the probe
  pub signs_for : Key → Key → Bool
  -- the SHA-256 of the key's DER, in hex
  pub digest : Key → String
  pub parse_json : String → Option Json

-- `value.trim()`
abbrev pub trimmed : String → String
trimmed s = trim_end (trim_start s)

-- `value?.trim()`, if it is not empty
abbrev pub present : Option String → Option String
present none = none
present (some s) = non_empty (trimmed s)

abbrev unless_present : String → Option String → List String
unless_present name value = elim (present value) [ none ↦ name ∷ [] | some s ↦ [] ]

unfoldable pub missing : Vars → List String
missing vars =
    unless_present "JWT_PRIVATE_KEY" vars.jwt_private_key
    ++ unless_present "JWT_PUBLIC_KEY" vars.jwt_public_key
    ++ unless_present "JWT_KID" vars.jwt_kid
    ++ unless_present "REFRESH_TOKEN_PEPPER" vars.refresh_token_pepper

-- `value!`
abbrev pub given : Option String → String
given none = ""
given (some s) = s

abbrev pub and_then :
    {A B : Type 0} → Result ConfigError A → (A → Result ConfigError B) → Result ConfigError B
and_then r f = elim r [ ok a ↦ f a | err e ↦ err e ]

-- the loop over the entries of a parsed object
abbrev add_entry :
    String
    → Option String
    → Result ConfigError (List (String × String))
    → Result ConfigError (List (String × String))
add_entry kid none rest = err (empty_entry kid)
add_entry kid (some value) rest =
    if str_eq (trimmed value) ""
    then err (empty_entry kid)
    else elim rest [ ok out ↦ ok ((kid, value) ∷ out) | err e ↦ err e ]

unfoldable pub overlap_entries : Fields → Result ConfigError (List (String × String))
overlap_entries end = ok []
overlap_entries (field kid value fs) = add_entry kid (text_of (some value)) (overlap_entries fs)

abbrev entries_of : Option Json → Result ConfigError (List (String × String))
entries_of none = err not_json
entries_of (some j) = elim j [
  | obj fs ↦ overlap_entries fs
  | null ↦ err not_an_object
  | bool b ↦ err not_an_object
  | num n ↦ err not_an_object
  | str s ↦ err not_an_object
  | arr a ↦ err not_an_object
]

-- `Map.set`
abbrev pub set_key : {A : Type 0} → String → A → List (String × A) → List (String × A)
set_key kid key [] = (kid, key) ∷ []
set_key kid key (p ∷ ps) =
    let rest = set_key kid key ps in if str_eq p.0 kid then (p.0, key) ∷ ps else p ∷ rest

abbrev first_chars : ℕ → String → String
first_chars zero s = ""
first_chars (suc n) String.[] = ""
first_chars (suc n) (String.◌∷◌ c s) = String.◌∷◌ c (first_chars n s)

module _ {Key : Type 0} (o : KeyObjects Key) where
  pub record AuthConfig : Type 0 where
    pub kid : String
    pub private_key : Key
    pub public_keys : List (String × Key)
    pub pepper : String
    pub fingerprint : String

  unfoldable pub parse_overlap : Option String → Result ConfigError (List (String × String))
  unfolding overlap_entries
  parse_overlap raw = elim (present raw) [
    | none ↦ ok []
    | some text ↦ entries_of (o.parse_json text)
  ]

  unfoldable pub parse_key : KeyName → String → Kind → Result ConfigError Key
  parse_key name b64 kind =
      let pem = o.of_base64 (trimmed b64) in
      if includes (codes "-----BEGIN ") (codes pem)
      then elim (o.create_key kind pem) [
        | none ↦ err (not_parsed name kind)
        | some key ↦ if o.is_p256 key then ok key else err (not_p256 name)
      ]
      else err (not_pem name)

  unfoldable pub assert_same_pair : Key → Key → Result ConfigError (Unit {0})
  assert_same_pair private_key public_key =
      if o.signs_for private_key public_key then ok tt else err not_one_pair

  -- the loop over the overlap map
  unfoldable pub set_overlap :
      List (String × String) → List (String × Key) → Result ConfigError (List (String × Key))
  unfolding parse_key
  set_overlap [] keys = ok keys
  set_overlap (e ∷ es) keys =
      and_then (parse_key (overlap e.0) e.1 public) (λ key. set_overlap es (set_key e.0 key keys))

  abbrev fingerprint_of : Key → String
  fingerprint_of key = first_chars 16 (o.digest key)

  abbrev pub config_of : Vars → Key → Key → List (String × Key) → AuthConfig
  config_of vars private_key public_key keys =
      let kid = trimmed (given vars.jwt_kid) in
      record {
        kid = kid;
        private_key = private_key;
        public_keys = set_key kid public_key keys;
        pepper = trimmed (given vars.refresh_token_pepper);
        fingerprint = fingerprint_of public_key;
      }

  -- when no variable is missing: both keys, the check that they are a pair, the overlap
  abbrev pub with_entries :
      Vars → Key → Key → List (String × String) → Result ConfigError AuthConfig
  with_entries vars secret key entries =
      and_then (set_overlap entries []) (λ keys. ok (config_of vars secret key keys))

  abbrev pub with_pair : Vars → Key → Key → Unit {0} → Result ConfigError AuthConfig
  with_pair vars secret key pair =
      and_then (parse_overlap vars.jwt_public_keys) (with_entries vars secret key)

  abbrev pub with_public : Vars → Key → Key → Result ConfigError AuthConfig
  with_public vars secret key = and_then (assert_same_pair secret key) (with_pair vars secret key)

  abbrev pub with_private : Vars → Key → Result ConfigError AuthConfig
  with_private vars secret =
      and_then (parse_key own_public (given vars.jwt_public_key) public) (with_public vars secret)

  unfoldable pub parse_config : Vars → Result ConfigError AuthConfig
  parse_config vars =
      and_then (parse_key own_private (given vars.jwt_private_key) private) (with_private vars)

  -- with the configuration that an earlier call has read, if any
  unfoldable pub load_auth_config :
      Vars → Option AuthConfig → Result ConfigError AuthConfig × Option AuthConfig
  unfolding missing parse_config
  load_auth_config vars (some cached) = (ok cached, some cached)
  load_auth_config vars none = elim (missing vars) [
    | name ∷ names ↦ (err (missing_secret (name ∷ names)), none)
    | [] ↦ elim (parse_config vars) [ ok config ↦ (ok config, some config) | err e ↦ (err e, none) ]
  ]
