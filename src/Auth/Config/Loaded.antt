-- ===== src/Auth/Config/Loaded.antt =====
-- src/auth/config.ts, src/auth/tokens.ts: the keys of a process that has started.
use nodejs_advanced_homework.Prelude.{
  Result-cases, List-cases, none, ◌⊎◌, Option, subst, ◌≡◌, refl, sym, arith, true, false, List, [],
  ◌∷◌, some, String, str_eq, str_eq_iff, ok, err, Result, All, Option-cases, Bool-cases, inl, inr,
}
use nodejs_advanced_homework.Auth.Guard.{Jwt, key_for, lookup}
use nodejs_advanced_homework.Auth.Config.{
  missing_secret, load_auth_config, given, with_private, with_public, with_pair, with_entries,
  config_of, Vars, Kind, private, public, KeyName, own_private, own_public, ConfigError, KeyObjects,
  AuthConfig, missing, and_then, parse_key, assert_same_pair, parse_overlap, set_overlap, set_key,
  parse_config, trimmed, overlap,
}

and_then-eq-ok :
    {A B : Type 0} (r : Result ConfigError A) (f : A → Result ConfigError B) (b : B)
    → and_then r f ≡ ok b
    → (a : A) × (r ≡ ok a) × (f a ≡ ok b)
and_then-eq-ok (ok a) f b h = (a, refl, h)
and_then-eq-ok (err e) f b h = absurd (ground arith)

module _ (jwt : Jwt) (o : KeyObjects jwt.Key) where
  -- Tokens that the process signs name a key that `keyFor` finds, which is the other half of the key that
  -- signs; and every key, also of the overlap, is an EC key on P-256.
  pub record IsConfig (config : AuthConfig o) : Type 0 where
    pub public_key : jwt.Key
    pub found : key_for jwt config.public_keys (some config.kid) ≡ some public_key
    pub pair : o.signs_for config.private_key public_key ≡ true
    pub own_p256 : o.is_p256 config.private_key ≡ true
    pub all_p256 : All (λ (p : String × jwt.Key). o.is_p256 p.1 ≡ true) config.public_keys

  parse_key-p256 :
      (name : KeyName) (b64 : String) (kind : Kind) (key : jwt.Key)
      → parse_key o name b64 kind ≡ ok key
      → o.is_p256 key ≡ true
  unfolding parse_key
  parse_key-p256 name b64 kind key h = ground arith

  set_key-All :
      (kid : String) (key : jwt.Key) (keys : List (String × jwt.Key))
      → o.is_p256 key ≡ true
      → All (λ (p : String × jwt.Key). o.is_p256 p.1 ≡ true) keys
      → All (λ (p : String × jwt.Key). o.is_p256 p.1 ≡ true) (set_key kid key keys)
  set_key-All kid key [] h q = (h, tt)
  set_key-All kid key (p ∷ ps) h (l, q) = elim (Bool-cases (str_eq p.0 kid)) [
    | inl t ↦ rw t (h, q)
    | inr f ↦ rw f (l, set_key-All kid key ps h q)
  ]

  lookup-set_key :
      (kid : String) (key : jwt.Key) (keys : List (String × jwt.Key))
      → lookup jwt kid (set_key kid key keys) ≡ some key
  lookup-set_key kid key [] = ground (arith, (str_eq_iff kid kid).1)
  lookup-set_key kid key (p ∷ ps) = elim (Bool-cases (str_eq p.0 kid)) [
    | inl t ↦ ground arith
    | inr f ↦ ground (arith, lookup-set_key kid key ps)
  ]

  set_overlap-All :
      (entries : List (String × String)) (keys keys' : List (String × jwt.Key))
      → All (λ (p : String × jwt.Key). o.is_p256 p.1 ≡ true) keys
      → set_overlap o entries keys ≡ ok keys'
      → All (λ (p : String × jwt.Key). o.is_p256 p.1 ≡ true) keys'
  unfolding set_overlap
  set_overlap-All [] keys keys' q h = let same : keys ≡ keys' = ground arith in rw same at q
  set_overlap-All (e ∷ es) keys keys' q h =
      let (key, parsed, rest) =
        and_then-eq-ok (parse_key o (overlap e.0) e.1 public)
          (λ key. set_overlap o es (set_key e.0 key keys)) keys' h in
      set_overlap-All es (set_key e.0 key keys) keys'
        (set_key-All e.0 key keys (parse_key-p256 (overlap e.0) e.1 public key parsed) q) rest

  -- No variable is missing: the id of the key is not empty.
  missing-kid :
      (vars : Vars)
      → missing vars ≡ []
      → (kid : String) × (vars.jwt_kid ≡ some kid) × (str_eq (trimmed kid) "" ≡ false)
  unfolding missing
  missing-kid vars h = elim (Option-cases vars.jwt_kid) [
    | inl n ↦ absurd (ground arith)
    | inr (kid, e) ↦ (kid, e, ground arith)
  ]

  parse_config-IsConfig :
      (vars : Vars) (config : AuthConfig o)
      → missing vars ≡ []
      → parse_config o vars ≡ ok config
      → IsConfig config
  unfolding parse_config assert_same_pair key_for
  parse_config-IsConfig vars config none_missing h =
      let (secret, s, h1) =
        and_then-eq-ok (parse_key o own_private (given vars.jwt_private_key) private)
          (with_private o vars) config h in
      let (key, k, h2) =
        and_then-eq-ok (parse_key o own_public (given vars.jwt_public_key) public)
          (with_public o vars secret) config h1 in
      let (u, pair, h3) =
        and_then-eq-ok (assert_same_pair o secret key) (with_pair o vars secret key) config h2 in
      let (entries, p, h4) =
        and_then-eq-ok (parse_overlap o vars.jwt_public_keys) (with_entries o vars secret key)
          config h3 in
      let (keys, q, h5) =
        and_then-eq-ok (set_overlap o entries []) (λ keys. ok (config_of o vars secret key keys))
          config h4 in
      let (kid, named, full) = missing-kid vars none_missing in
      let key_p256 = parse_key-p256 own_public (given vars.jwt_public_key) public key k in
      record {
        public_key = key;
        found = ground (arith, lookup-set_key (trimmed kid) key keys);
        pair = ground arith;
        own_p256 =
            ground
              (arith, parse_key-p256 own_private (given vars.jwt_private_key) private secret s);
        all_p256 =
            let all =
              set_key-All (trimmed kid) key keys key_p256 (set_overlap-All entries [] keys tt q) in
            let same : config.public_keys ≡ set_key (trimmed kid) key keys = ground arith in
            subst (All (λ (p : String × jwt.Key). o.is_p256 p.1 ≡ true)) (sym same) all;
      }

  abbrev pub IsKept : Option (AuthConfig o) → Type 0
  IsKept none = Unit {0}
  IsKept (some config) = IsConfig config

  -- A configuration that is loaded, first or from what an earlier call has kept, is a good one, and is kept:
  -- the id that goes into new tokens finds the key that checks what the private key signs, and all keys are
  -- on P-256. A process that has none yet either has all its variables or is refused by the names of those
  -- that are missing, and keeps nothing.
  pub load_auth_config-IsConfig :
      (vars : Vars) (cached cached' : Option (AuthConfig o)) (config : AuthConfig o)
      → IsKept cached
      → load_auth_config o vars cached ≡ (ok config, cached')
      → IsConfig config
        × (cached' ≡ some config)
        × ((missing vars ≡ [])
            ⊎ (load_auth_config o vars none ≡ (err (missing_secret (missing vars)), none)))
  unfolding load_auth_config
  load_auth_config-IsConfig vars (some c) cached' config k h =
      let same : c ≡ config = ground arith in (subst IsConfig same k, ground arith, refused)
    where
      refused :
          (missing vars ≡ [])
          ⊎ (load_auth_config o vars none ≡ (err (missing_secret (missing vars)), none))
      refused = elim (List-cases (missing vars)) [
        | inl n ↦ inl n
        | inr (x, xs, e) ↦ inr (ground arith)
      ]
  load_auth_config-IsConfig vars none cached' config k h = elim (List-cases (missing vars)) [
    | inl n ↦ elim (Result-cases (parse_config o vars)) [
      | inl (c, e) ↦
          let same : c ≡ config = ground arith in
          (subst IsConfig same (parse_config-IsConfig vars c n e), ground arith, inl n)
      | inr (x, e) ↦ absurd (ground arith)
    ]
    | inr (x, xs, e) ↦ absurd (ground arith)
  ]
