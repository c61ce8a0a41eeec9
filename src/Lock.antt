-- ===== src/Lock.antt =====
-- src/redis/lock.ts: a lock in Redis that expires, and is released by its holder only. The random token is
-- an argument; times are in milliseconds; the state is what Redis holds under the lock's key.
pub mod Holding
pub mod Tests
use nodejs_advanced_homework.Prelude.{
  ℕ, ◌+◌, Bool, true, false, ◌&&◌, Option, none, some, String, str_eq, ltb, if◌then◌else◌,
}

pub record Held : Type 0 where
  pub token : String
  pub expires_at : ℕ

-- what a command finds under the key at that time
abbrev pub holder : ℕ → Option Held → Option Held
holder now none = none
holder now (some h) = if ltb now h.expires_at then some h else none

-- `SET key token PX ttl NX`
unfoldable pub acquire_lock : ℕ → String → ℕ → Option Held → Option String × Option Held
acquire_lock now token ttl_ms key = elim (holder now key) [
  | none ↦ (some token, some (record { token = token; expires_at = now + ttl_ms }))
  | some h ↦ (none, key)
]

-- RELEASE_IF_OWNER
unfoldable pub release_lock : ℕ → String → Option Held → Bool × Option Held
release_lock now token key = elim (holder now key) [
  | none ↦ (false, key)
  | some h ↦ if str_eq h.token token then (true, none) else (false, key)
]
