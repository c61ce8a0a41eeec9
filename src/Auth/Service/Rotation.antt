-- ===== src/Auth/Service/Rotation.antt =====
-- src/auth/auth.service.ts: a refresh token works once, and its second use is the end of the family.
use nodejs_advanced_homework.Prelude.{
  All, ◌≤◌, refl, sym, subst, ◌∙◌, ap, str_eq_iff, true, str_eq, ◌≢◌, ℕ, ◌<◌, ◌≡◌, Bool, none, some,
  List, [], ◌∷◌, String, arith, find?, update_where, Option-cases, inl, inr,
}
use nodejs_advanced_homework.Auth.Service.Held.{Held, serve_all-Held, refresh-Held}
use nodejs_advanced_homework.Auth.Service.Dead.{Request, serve_all, IsLater, end_time, IsDead}
use nodejs_advanced_homework.Auth.Service.{
  unauthorized, new_row, Role, RefreshRow, Db, Env, TokenPair, pair, refresh, refresh_row,
  find_refresh, mark_used, insert_pair, role_of,
}

-- The row of a token that can be rotated.
pub record IsLive (now : ℕ) (row : RefreshRow) : Type 0 where
  pub unused : row.used_at ≡ none
  pub unrevoked : row.revoked_at ≡ none
  pub unexpired : now < row.expires_at

find?-update_where_self :
    (p : RefreshRow → Bool) (f : RefreshRow → RefreshRow) (xs : List RefreshRow) (x : RefreshRow)
    → ((y : RefreshRow) → p (f y) ≡ p y)
    → find? p xs ≡ some x
    → find? p (update_where p f xs) ≡ some (f x)
find?-update_where_self p f [] x keep h = cc
find?-update_where_self p f (y ∷ ys) x keep h =
    ground (arith, keep y, find?-update_where_self p f ys x keep)

-- A refresh that gives a pair has found a live row.
refresh-eq-pair :
    (env : Env) (token : String) (db db' : Db) (p : TokenPair)
    → refresh env token db ≡ (pair p, db')
    → (row : RefreshRow) × (role : Role) × (find_refresh (env.hash token) db ≡ some row)
      × IsLive env.now row
      × (db' ≡ (insert_pair env row.user_id role row.family_id (mark_used env row.token_hash db)).1)
unfolding refresh refresh_row
refresh-eq-pair env token db db' p h = elim (Option-cases (find_refresh (env.hash token) db)) [
  | inl e ↦ absurd (ground arith)
  | inr (row, e) ↦ elim (Option-cases (role_of row.user_id db)) [
    | inl n ↦ absurd (ground arith)
    | inr (role, r) ↦ (
      row,
      role,
      e,
      record { unused = ground arith; unrevoked = ground arith; unexpired = ground arith },
      ground arith,
    )
  ]
]

found-hash :
    (hash : String) (rows : List RefreshRow) (row : RefreshRow)
    → find? (λ r. str_eq r.token_hash hash) rows ≡ some row
    → row.token_hash ≡ hash
found-hash hash [] row h = cc
found-hash hash (r ∷ rs) row h =
    ground (arith, found-hash hash rs row, str_eq_iff r.token_hash hash)

-- The row of the token, once the pair has been issued.
mark_used-find_refresh :
    (env : Env) (hash : String) (db : Db) (row : RefreshRow)
    → find_refresh hash db ≡ some row
    → find_refresh hash (mark_used env hash db) ≡ some (record row { used_at = some env.now })
unfolding find_refresh mark_used
mark_used-find_refresh env hash db row h =
    find?-update_where_self (λ r. str_eq r.token_hash hash)
      (λ r. record r { used_at = some env.now }) db.refresh_tokens row (λ y. refl) h

insert_pair-find_refresh :
    (env : Env) (user : String) (role : Role) (family hash : String) (db : Db)
    → env.hash env.refresh_token ≢ hash
    → find_refresh hash (insert_pair env user role family db).1 ≡ find_refresh hash db
unfolding find_refresh insert_pair new_row
insert_pair-find_refresh env user role family hash db n =
    ground (arith, str_eq_iff (env.hash env.refresh_token) hash)

abbrev rotated : Env → RefreshRow → Role → Db → Db
rotated env row role db =
    (insert_pair env row.user_id role row.family_id (mark_used env row.token_hash db)).1

-- The first use leaves the row spent, and its family alive.
rotated-Held :
    (env : Env) (token : String) (db : Db) (row : RefreshRow) (role : Role)
    → find_refresh (env.hash token) db ≡ some row
    → IsLive env.now row
    → env.hash env.refresh_token ≢ env.hash token
    → Held (env.hash token) row.family_id row.expires_at env.now (rotated env row role db)
unfolding find_refresh
rotated-Held env token db row role found live fresh =
    let is = found-hash (env.hash token) db.refresh_tokens row found in
    let marked = mark_used-find_refresh env (env.hash token) db row found in
    let kept =
      insert_pair-find_refresh env row.user_id role row.family_id (env.hash token)
        (mark_used env row.token_hash db) fresh in
    let at = ap (λ h. find_refresh (env.hash token) (mark_used env h db)) is in
    record {
      row = record row { used_at = some env.now };
      found = kept ∙ at ∙ marked;
      spent = record { family = refl; used = refl; expires = refl };
      dead = inl live.unrevoked;
    }

-- A refresh token that gave a pair, and is shown again after any logins, refreshes and logouts of any
-- clients, before the token itself would have expired, is refused, and then its whole family is dead: at
-- once, or since a revocation in between. (Both uses are committed, the clock does not go back, no other
-- refresh token has the same hash, and no new login is given the family's id.)
pub refresh-reuse :
    (env env' : Env) (token : String) (db db' : Db) (p : TokenPair) (row : RefreshRow)
    (rest : List (Env × Request))
    → refresh env token db ≡ (pair p, db')
    → find_refresh (env.hash token) db ≡ some row
    → env.hash env.refresh_token ≢ env.hash token
    → IsLater row.family_id env.now rest
    → All (λ (q : Env × Request). q.0.hash q.0.refresh_token ≢ env.hash token) rest
    → end_time env.now rest < row.expires_at
    → end_time env.now rest ≤ env'.now
    → env'.hash ≡ env.hash
    → env'.commits ≡ true
    → ((refresh env' token (serve_all rest db')).0 ≡ unauthorized)
      × (s : ℕ) × (s ≤ env'.now)
      × IsDead row.family_id s env'.now (refresh env' token (serve_all rest db')).1
refresh-reuse env env' token db db' p row rest first there fresh later new valid le same c =
    let (row', role, found, live, e) = refresh-eq-pair env token db db' p first in
    let is : row' ≡ row = ground arith in
    let begun = rotated-Held env token db row' role found live fresh in
    let held : Held (env.hash token) row.family_id row.expires_at env.now db' =
      subst (λ (r : RefreshRow). Held (env.hash token) r.family_id r.expires_at env.now db') is
        (subst (Held (env.hash token) row'.family_id row'.expires_at env.now) (sym e) begun) in
    let kept =
      serve_all-Held (env.hash token) row.family_id row.expires_at env.now rest db' later new valid
        held in
    refresh-Held env' token row.family_id row.expires_at (end_time env.now rest)
      (serve_all rest db')
      (subst
        (λ (h : String → String).
          Held (h token) row.family_id row.expires_at (end_time env.now rest) (serve_all rest db'))
        (sym same) kept)
      le c
