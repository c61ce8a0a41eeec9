-- ===== src/Session/Lifetime.antt =====
-- src/session/session.store.ts: how long a session lives.
use nodejs_advanced_homework.Prelude.{
  inr, inl, ltb, Bool-cases, none, refl, ◌≤◌, str_eq_iff, ◌⊎◌, arith, length, [], ◌+◌, some, ◌<◌,
  ◌≡◌, ◌∷◌, List, String, ℕ,
}
use nodejs_advanced_homework.Session.{touched, SessionData, create, Redis, touch}

module _ (key_for : String → String) (ttl_ms : ℕ) where
  -- Requests of one client, each with its time.
  unfoldable pub touch_all : String → List ℕ → Redis → Redis
  touch_all sid [] redis = redis
  touch_all sid (t ∷ ts) redis = touch_all sid ts (touch key_for ttl_ms sid t redis).1

  -- Each request comes before the last one's time to live is over.
  abbrev pub IsKept : ℕ → List ℕ → Type 0
  IsKept now [] = Unit {0}
  IsKept now (t ∷ ts) = (t < now + ttl_ms) × IsKept t ts

  abbrev pub last_time : ℕ → List ℕ → ℕ
  last_time now [] = now
  last_time now (t ∷ ts) = last_time t ts

  abbrev Holds : String → ℕ → SessionData → Redis → Type 0
  Holds sid now session redis =
      redis (key_for sid) ≡ some (record { session = session; expires_at = now + ttl_ms })

  touch-Holds :
      (sid : String) (now t : ℕ) (session : SessionData) (redis : Redis)
      → t < now + ttl_ms
      → Holds sid now session redis
      → Holds sid t (touched key_for ttl_ms t session) (touch key_for ttl_ms sid t redis).1
  unfolding touch
  touch-Holds sid now t session redis h k = ground (arith, str_eq_iff (key_for sid) (key_for sid))

  touch_all-Holds :
      (ts : List ℕ) (sid : String) (now : ℕ) (session : SessionData) (redis : Redis)
      → IsKept now ts
      → Holds sid now session redis
      → (d : SessionData) × Holds sid (last_time now ts) d (touch_all sid ts redis)
        × (d.user_id ≡ session.user_id)
        × (d.created_at ≡ session.created_at)
        × (d.requests ≡ session.requests + length ts)
  unfolding touch_all
  touch_all-Holds [] sid now session redis i k = (session, k, refl, refl, omega arith)
  touch_all-Holds (t ∷ ts) sid now session redis (l, i) k =
      let (d, h, u, c, r) =
        touch_all-Holds ts sid t (touched key_for ttl_ms t session)
          (touch key_for ttl_ms sid t redis).1 i (touch-Holds sid now t session redis l k) in
      (d, h, u, c, omega (arith, r))

-- A session whose client comes back in time, again and again, is still found under its id, with its user, the
-- time it was created and a count of all its requests; and once the client has stayed away for the time to
-- live, a request is told that there is no session, and does not bring it back.
pub touch-created :
    (key_for : String → String) (ttl_ms : ℕ) (sid user_id : String) (now later : ℕ) (ts : List ℕ)
    (redis : Redis)
    → IsKept key_for ttl_ms now ts
    → ((later < last_time key_for ttl_ms now ts + ttl_ms)
        × (d : SessionData) × ((touch key_for ttl_ms sid later
              (touch_all key_for ttl_ms sid ts (create key_for ttl_ms sid user_id now redis).1)).0
            ≡ some d)
        × (d.user_id ≡ user_id)
        × (d.created_at ≡ now)
        × (d.last_seen_at ≡ later)
        × (d.requests ≡ 2 + length ts))
      ⊎ ((last_time key_for ttl_ms now ts + ttl_ms ≤ later)
          × (touch key_for ttl_ms sid later
                (touch_all key_for ttl_ms sid ts (create key_for ttl_ms sid user_id now redis).1)
              ≡ (
                none,
                touch_all key_for ttl_ms sid ts (create key_for ttl_ms sid user_id now redis).1,
              )))
unfolding create touch
touch-created key_for ttl sid user now later ts redis i =
    let first : SessionData = record {
      user_id = user;
      created_at = now;
      last_seen_at = now;
      requests = 1;
    } in
    let begun : Holds key_for ttl sid now first (create key_for ttl sid user now redis).1 =
      ground (arith, str_eq_iff (key_for sid) (key_for sid)) in
    let (d, h, u, c, r) =
      touch_all-Holds key_for ttl ts sid now first (create key_for ttl sid user now redis).1 i
        begun in
    elim (Bool-cases (ltb later (last_time key_for ttl now ts + ttl))) [
      | inl y ↦
          inl
            (ground arith, touched key_for ttl later d, ground arith, u, c, refl, omega (arith, r))
      | inr n ↦ inr (ground arith, ground arith)
    ]
