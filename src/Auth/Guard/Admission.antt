-- ===== src/Auth/Guard/Admission.antt =====
-- src/auth/auth.guard.ts: who is let through a guarded route.
use nodejs_advanced_homework.Prelude.{
  subst, sym, ap, ◌∙◌, Result-cases, ◌≡◌, ◌↔◌, refl, arith, true, Option, none, some, List, [], ◌∷◌,
  String, ok, err, inl, inr, ◌⊎◌, Has, any, any-Has, Has-any, Option-cases, Bool-cases,
}
use nodejs_advanced_homework.Auth.Tables.{AccessClaims, Role, buyer, seller, admin, Db, Env}
use nodejs_advanced_homework.Auth.Service.{authenticate}
use nodejs_advanced_homework.Auth.Guard.{
  bearer_token, auth_guard, roles_guard, admit, unauthorized, forbidden, Refusal, same_role,
}

-- No role is asked for, or the user has one that is.
abbrev pub IsAllowed : Option (List Role) → AccessClaims → Type 0
IsAllowed none user = Unit {0}
IsAllowed (some []) user = Unit {0}
IsAllowed (some (r ∷ rs)) user = Has user.role (r ∷ rs)

same_role-eq : (a b : Role) → (same_role a b ≡ true) ↔ (a ≡ b)
same_role-eq buyer buyer = (λ h. refl, λ h. refl)
same_role-eq buyer seller = (λ h. cc, λ h. cc)
same_role-eq buyer admin = (λ h. cc, λ h. cc)
same_role-eq seller buyer = (λ h. cc, λ h. cc)
same_role-eq seller seller = (λ h. refl, λ h. refl)
same_role-eq seller admin = (λ h. cc, λ h. cc)
same_role-eq admin buyer = (λ h. cc, λ h. cc)
same_role-eq admin seller = (λ h. cc, λ h. cc)
same_role-eq admin admin = (λ h. refl, λ h. refl)

any-same_role : (a : Role) (rs : List Role) → (any (same_role a) rs ≡ true) ↔ Has a rs
any-same_role a rs = (
  (λ h.
      let (b, m, e) = any-Has (same_role a) rs h in
      let same : a ≡ b = (same_role-eq a b).0 e in rw same m),
  (λ m. Has-any (same_role a) rs a m ((same_role-eq a a).1 refl)),
)

roles_guard-IsAllowed :
    (roles : Option (List Role)) (user : AccessClaims)
    → ((roles_guard roles (some user) ≡ ok tt) ↔ IsAllowed roles user)
      × ((roles_guard roles (some user) ≡ err forbidden) ↔ ¬ IsAllowed roles user)
unfolding roles_guard
roles_guard-IsAllowed none user = ((λ h. tt, λ h. refl), (λ h. cc, λ h. absurd (h tt)))
roles_guard-IsAllowed (some []) user = ((λ h. tt, λ h. refl), (λ h. cc, λ h. absurd (h tt)))
roles_guard-IsAllowed (some (r ∷ rs)) user =
    let has = any-same_role user.role (r ∷ rs) in
    elim (Bool-cases (any (same_role user.role) (r ∷ rs))) [
      | inl t ↦ (
        (λ h. has.0 t, λ h. ground arith),
        (λ h. absurd (ground arith), λ h. absurd (h (has.0 t))),
      )
      | inr f ↦ (
        (λ h. absurd (ground arith), λ h. absurd (cc (has.1 h, f))),
        (λ h m. cc (has.1 m, f), λ h. ground arith),
      )
    ]

roles_guard-err :
    (roles : Option (List Role)) (user : AccessClaims) (x : Refusal)
    → roles_guard roles (some user) ≡ err x
    → x ≡ forbidden
unfolding roles_guard
roles_guard-err none user x h = cc
roles_guard-err (some []) user x h = cc
roles_guard-err (some (r ∷ rs)) user x h = ground arith

-- A guarded route lets a request through exactly where its bearer token authenticates as the viewer that the
-- handler gets and no role is asked for or the viewer has one that is; it answers 401 exactly where the
-- token is missing or does not authenticate, and 403 exactly where it authenticates and the role is missing.
pub admit-IsAllowed :
    (env : Env) (roles : Option (List Role)) (header : Option String) (db : Db)
    (user : AccessClaims)
    → ((admit env roles header db ≡ ok user)
        ↔ ((authenticate env (bearer_token header) db ≡ some user) × IsAllowed roles user))
      × ((admit env roles header db ≡ err unauthorized)
          ↔ (authenticate env (bearer_token header) db ≡ none))
      × ((admit env roles header db ≡ err forbidden) ↔ (
          (c : AccessClaims) × (authenticate env (bearer_token header) db ≡ some c)
          × (¬ IsAllowed roles c)))
unfolding admit auth_guard
admit-IsAllowed env roles header db user =
    elim (Option-cases (authenticate env (bearer_token header) db)) [
      | inl n ↦ (
        ((λ h. absurd (ground arith)), (λ h. absurd (ground arith))),
        ((λ h. n), (λ h. ground arith)),
        ((λ h. absurd (ground arith)), (λ h. absurd (ground arith))),
      )
      | inr (c, e) ↦ guarded c e (Result-cases (roles_guard roles (some c)))
    ]
  where
    guarded :
        (c : AccessClaims)
        → authenticate env (bearer_token header) db ≡ some c
        → ((u : Unit {0}) × (roles_guard roles (some c) ≡ ok u))
          ⊎ ((e : Refusal) × (roles_guard roles (some c) ≡ err e))
        → ((admit env roles header db ≡ ok user)
            ↔ ((authenticate env (bearer_token header) db ≡ some user) × IsAllowed roles user))
          × ((admit env roles header db ≡ err unauthorized)
              ↔ (authenticate env (bearer_token header) db ≡ none))
          × ((admit env roles header db ≡ err forbidden) ↔ (
              (c : AccessClaims) × (authenticate env (bearer_token header) db ≡ some c)
              × (¬ IsAllowed roles c)))
    guarded c e (inl (u, g)) =
        let allowed = (roles_guard-IsAllowed roles c).0.0 g in
        (
          (
            (λ h. (
              ground arith,
              let same : c ≡ user = ground arith in subst (IsAllowed roles) same allowed,
            )),
            (λ h. ground arith),
          ),
          ((λ h. absurd (ground arith)), (λ h. absurd (ground arith))),
          (
            (λ h. absurd (ground arith)),
            (λ (d, q, bad).
                let same : c ≡ d = cc in absurd (bad (subst (IsAllowed roles) same allowed))),
          ),
        )
    guarded c e (inr (x, g)) =
        let is : x ≡ forbidden = roles_guard-err roles c x g in
        let bad : ¬ IsAllowed roles c = (roles_guard-IsAllowed roles c).1.0 (g ∙ ap err is) in
        (
          (
            (λ h. absurd (ground arith)),
            (λ h.
                let same : c ≡ user = cc in absurd (bad (subst (IsAllowed roles) (sym same) h.1))),
          ),
          ((λ h. absurd (ground arith)), (λ h. absurd (ground arith))),
          ((λ h. (c, e, bad)), (λ h. ground arith)),
        )
