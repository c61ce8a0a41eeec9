-- ===== src/Auth/Service/Held.antt =====
-- src/auth/auth.service.ts: what a spent refresh token leads to, when it is shown once more.
use nodejs_advanced_homework.Prelude.{
  sym, ap, All, ◌≤◌, ◌≡◌, ◌≢◌, ◌∙◌, subst, arith, ℕ, ◌<◌, true, none, some, is_some, List, [], ◌∷◌,
  String, Bool-cases, inl, inr, ◌⊎◌,
}
use nodejs_advanced_homework.Auth.Service.{
  RefreshRow, Db, Env, Reply, unauthorized, revoke_family, find_refresh, refresh_row, refresh,
}
use nodejs_advanced_homework.Auth.Service.Dead.{
  end_time, serve-IsDead, serve_all, IsLater, IsDead, Request, serve, revoke_family-IsDead_self,
}
use nodejs_advanced_homework.Auth.Service.Spent.{IsSpent, serve-Kept}

-- The row is there and spent, and if it was revoked, its family has been dead since some time.
pub record Held (hash fid : String) (until now : ℕ) (db : Db) : Type 0 where
  pub row : RefreshRow
  pub found : find_refresh hash db ≡ some row
  pub spent : IsSpent fid until row
  pub dead : (row.revoked_at ≡ none) ⊎ ((s : ℕ) × (s ≤ now) × IsDead fid s now db)

serve-Held :
    (env : Env) (hash fid : String) (until now : ℕ) (r : Request) (db : Db)
    → now ≤ env.now
    → env.now < until
    → env.family_id ≢ fid
    → env.hash env.refresh_token ≢ hash
    → Held hash fid until now db
    → Held hash fid until env.now (serve env r db)
serve-Held env hash fid until now r db later valid other fresh h =
    let k = serve-Kept env hash fid until valid fresh r h.row db h.found h.spent in
    record {
      row = k.now_row;
      found = k.found;
      spent = k.spent;
      dead = elim h.dead [
        | inl live ↦ elim k.revoked [
          | inl same ↦ inl (same ∙ live)
          | inr d ↦ inr (env.now, omega arith, d)
        ]
        | inr (s, known, d) ↦
            inr (s, omega (arith, known), serve-IsDead env fid s now later known other r db d)
      ];
    }

end_time-le :
    (fid : String) (now : ℕ) (rest : List (Env × Request))
    → IsLater fid now rest
    → now ≤ end_time now rest
end_time-le fid now [] l = omega arith
end_time-le fid now ((env, r) ∷ rest) (le, other, l) =
    omega (arith, le, end_time-le fid env.now rest l)

pub serve_all-Held :
    (hash fid : String) (until now : ℕ) (rest : List (Env × Request)) (db : Db)
    → IsLater fid now rest
    → All (λ (q : Env × Request). q.0.hash q.0.refresh_token ≢ hash) rest
    → end_time now rest < until
    → Held hash fid until now db
    → Held hash fid until (end_time now rest) (serve_all rest db)
unfolding serve_all
serve_all-Held hash fid until now [] db l fresh valid h = h
serve_all-Held hash fid until now ((env, r) ∷ rest) db (le, other, l) (new, fresh) valid h =
    let soon = end_time-le fid env.now rest l in
    serve_all-Held hash fid until env.now rest (serve env r db) l fresh valid
      (serve-Held env hash fid until now r db le (omega (arith, soon)) other new h)

-- Shown once more, a spent token is refused and its family is dead.
pub refresh-Held :
    (env : Env) (token fid : String) (until now : ℕ) (db : Db)
    → Held (env.hash token) fid until now db
    → now ≤ env.now
    → env.commits ≡ true
    → ((refresh env token db).0 ≡ unauthorized)
      × (s : ℕ) × (s ≤ env.now)
      × IsDead fid s env.now (refresh env token db).1
unfolding refresh refresh_row
refresh-Held env token fid until now db h later c =
    let used = h.spent.used in
    elim (Bool-cases (is_some h.row.revoked_at)) [
      | inl t ↦
          let is : refresh env token db ≡ (unauthorized, db) = ground (arith, h.found) in
          elim h.dead [
            | inl live ↦ absurd (ground arith)
            | inr (s, known, d) ↦ (
              ap (λ (r : Reply × Db). r.0) is,
              s,
              omega (arith, known),
              subst (λ (r : Reply × Db). IsDead fid s env.now r.1) (sym is)
                  (record { rows = d.rows; listed = ground (arith, d.listed) }),
            )
          ]
      | inr f ↦
          let is : refresh env token db ≡ (unauthorized, revoke_family env h.row.family_id db) =
            ground (arith, h.found) in
          (
            ap (λ (r : Reply × Db). r.0) is,
            env.now,
            omega arith,
            subst (λ (r : Reply × Db). IsDead fid env.now env.now r.1) (sym is)
                (subst (λ g. IsDead g env.now env.now (revoke_family env h.row.family_id db))
                  h.spent.family (revoke_family-IsDead_self env h.row.family_id db)),
          )
    ]
