-- ===== src/RateLimit.antt =====
-- src/rate-limit/sliding-window.ts, src/rate-limit/rate-limit.guard.ts: a log of the requests that were
-- allowed, kept in one Redis script, so that each hit is one step. Times are the milliseconds of Redis
-- TIME; the random member is the environment.
pub mod Tests
pub mod Bound
pub mod Waiting
use nodejs_advanced_homework.Prelude.{
  ℕ, ◌+◌, ◌-◌, ◌/◌, ◌≤◌, max, Bool, true, false, not, ◌&&◌, Option, none, some, List, [], ◌∷◌,
  String, str_eq, ltb, leb, if◌then◌else◌, filter, length, any, map,
}

pub record RateLimitConfig : Type 0 where
  pub limit : ℕ
  pub window_ms : ℕ

-- `positiveInt`, of the number that the text stands for, if it is a natural one
unfoldable pub positive_int : Option ℕ → ℕ → ℕ
positive_int none fallback = fallback
positive_int (some n) fallback = if ltb 0 n then n else fallback

unfoldable pub rate_limit_config_from_env : Option ℕ → Option ℕ → RateLimitConfig
rate_limit_config_from_env limit window_ms = record {
  limit = positive_int limit 60;
  window_ms = positive_int window_ms 60000;
}

pub record RateLimitDecision : Type 0 where
  pub allowed : Bool
  pub remaining : ℕ
  pub retry_after_ms : ℕ

-- A member of the sorted set.
pub record Entry : Type 0 where
  pub score : ℕ
  pub member : String

-- The sorted set of one key, the lowest score first, and when the key expires.
pub record Window : Type 0 where
  pub entries : List Entry
  pub expires_at : ℕ

abbrev pub insert_entry : Entry → List Entry → List Entry
insert_entry e [] = e ∷ []
insert_entry e (x ∷ xs) =
    let rest = insert_entry e xs in if leb x.score e.score then x ∷ rest else e ∷ x ∷ xs

-- `ZADD`: a member that is there gets the new score
unfoldable pub zadd : ℕ → String → List Entry → List Entry
zadd now member entries =
    insert_entry (record { score = now; member = member })
      (filter (λ e. not (str_eq e.member member)) entries)

-- `ZREMRANGEBYSCORE key -inf now-window`
unfoldable pub trim : ℕ → ℕ → List Entry → List Entry
trim window now entries = filter (λ e. ltb now (e.score + window)) entries

-- what a key holds that expires by itself
abbrev pub present : ℕ → Window → List Entry
present now w = if ltb now w.expires_at then w.entries else []

-- `oldest[2] + window - now`
abbrev pub wait_for : ℕ → ℕ → List Entry → ℕ
wait_for window now [] = window - now
wait_for window now (oldest ∷ entries) = (oldest.score + window) - now

abbrev pub decide : RateLimitConfig → ℕ → String → ℕ → List Entry → RateLimitDecision × Window
decide config now member expires_at entries =
    if ltb (length entries) config.limit
    then (
      record { allowed = true; remaining = config.limit - length entries - 1; retry_after_ms = 0 },
      record { entries = zadd now member entries; expires_at = now + config.window_ms },
    )
    else (
      record {
        allowed = false;
        remaining = 0;
        retry_after_ms = wait_for config.window_ms now entries;
      },
      record { entries = entries; expires_at = expires_at },
    )

-- SLIDING_WINDOW, on one key
unfoldable pub hit : RateLimitConfig → ℕ → String → Window → RateLimitDecision × Window
hit config now member w =
    decide config now member w.expires_at (trim config.window_ms now (present now w))

-- What the guard does with a request: it goes on, with or without the limiter's headers, or it is
-- answered 429 with `Retry-After` in seconds.
pub data Guarded : Type 0 where
  unlimited : Guarded
  passed : (remaining : ℕ) → Guarded
  too_many_requests : (retry_after_sec : ℕ) → Guarded

abbrev pub guarded : RateLimitDecision → Guarded
guarded d =
    if d.allowed
    then passed d.remaining
    else too_many_requests (max 1 ((d.retry_after_ms + 999) / 1000))

-- `reachable` is false when Redis throws.
unfoldable pub can_activate : RateLimitConfig → Bool → ℕ → String → Window → Guarded × Window
can_activate config reachable now member w =
    if reachable then (let (d, w') = hit config now member w in (guarded d, w')) else (unlimited, w)
