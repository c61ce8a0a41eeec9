-- ===== src/Session/Tests.antt =====
-- src/session/session.store.ts: a session of 30 minutes with three requests.
use nodejs_advanced_homework.Prelude.{arith, ◌≤◌, ◌⊎◌, some, ◌≡◌, [], ◌∷◌, ◌<◌, List, none, ℕ}
use nodejs_advanced_homework.Session.{SessionData, create, Redis, touch}
use nodejs_advanced_homework.Session.Lifetime.{touch_all, touch-created}

abbrev no_sessions : Redis
no_sessions = λ k. none

abbrev visits : List ℕ
visits = 1000000 ∷ 2500000 ∷ []

abbrev visited : Redis
visited = touch_all (λ s. s) 1800000 "s1" visits (create (λ s. s) 1800000 "s1" "1" 0 no_sessions).1

touch-created_example :
    ((3000000 < 4300000)
      × (d : SessionData) × ((touch (λ s. s) 1800000 "s1" 3000000 visited).0 ≡ some d)
      × (d.user_id ≡ "1")
      × (d.created_at ≡ 0)
      × (d.last_seen_at ≡ 3000000)
      × (d.requests ≡ 4))
    ⊎ ((4300000 ≤ 3000000) × (touch (λ s. s) 1800000 "s1" 3000000 visited ≡ (none, visited)))
touch-created_example =
    touch-created (λ s. s) 1800000 "s1" "1" 0 3000000 visits no_sessions
      (omega arith, (omega arith, tt))
