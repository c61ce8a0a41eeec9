-- ===== src/Session.antt =====
-- src/session/session.store.ts: sessions that live in Redis under the hash of their id, and expire when
-- they are not used. The random id and the hash of ids are parameters; times are in milliseconds.
pub mod Lifetime
pub mod Cookie
pub mod Tests
use nodejs_advanced_homework.Prelude.{
  ℕ, suc, ◌+◌, Option, none, some, String, str_eq, ltb, if◌then◌else◌,
}

pub record SessionData : Type 0 where
  pub user_id : String
  pub created_at : ℕ
  pub last_seen_at : ℕ
  pub requests : ℕ

-- a hash with the time at which its key expires
pub record Stored : Type 0 where
  pub session : SessionData
  pub expires_at : ℕ

-- what Redis holds under each key
abbrev pub Redis : Type 0
Redis = String → Option Stored

abbrev pub set_key : String → Option Stored → Redis → Redis
set_key key value redis = λ k. if str_eq k key then value else redis k

abbrev pub when_live : ℕ → Stored → Option SessionData
when_live now s = if ltb now s.expires_at then some s.session else none

-- what a command finds under a key at that time
abbrev pub live : ℕ → String → Redis → Option SessionData
live now key redis = elim (redis key) [ none ↦ none | some s ↦ when_live now s ]

module _ (key_for : String → String) (ttl_ms : ℕ) where
  -- `sid` is the random id
  unfoldable pub create : String → String → ℕ → Redis → SessionData × Redis
  create sid user_id now redis =
      let session : SessionData = record {
        user_id = user_id;
        created_at = now;
        last_seen_at = now;
        requests = 1;
      } in
      (
        session,
        set_key (key_for sid) (some (record { session = session; expires_at = now + ttl_ms }))
            redis,
      )

  abbrev pub touched : ℕ → SessionData → SessionData
  touched now session = record session { requests = suc session.requests; last_seen_at = now }

  -- TOUCH
  unfoldable pub touch : String → ℕ → Redis → Option SessionData × Redis
  touch sid now redis = elim (live now (key_for sid) redis) [
    | none ↦ (none, redis)
    | some session ↦ (
      some (touched now session),
      set_key (key_for sid)
          (some (record { session = touched now session; expires_at = now + ttl_ms })) redis,
    )
  ]

  unfoldable pub destroy : String → Redis → Redis
  destroy sid redis = set_key (key_for sid) none redis
