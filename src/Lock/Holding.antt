-- ===== src/Lock/Holding.antt =====
-- src/redis/lock.ts: no one takes a lock that is held, nor frees it.
use nodejs_advanced_homework.Prelude.{
  none, refl, true, str_eq_iff, [], ◌+◌, false, if◌then◌else◌, arith, is_some, some, Bool, ◌≡◌, ◌≢◌,
  ◌∷◌, Option, String, List, ◌<◌, ℕ,
}
use nodejs_advanced_homework.Lock.{Held, acquire_lock, release_lock}

-- What others do with the lock, each at its time and with its own token.
pub data Attempt : Type 0 where
  acquires : (now : ℕ) (token : String) (ttl_ms : ℕ) → Attempt
  releases : (now : ℕ) (token : String) → Attempt

abbrev pub time_of : Attempt → ℕ
time_of (acquires now token ttl_ms) = now
time_of (releases now token) = now

abbrev pub token_of : Attempt → String
token_of (acquires now token ttl_ms) = token
token_of (releases now token) = token

unfoldable pub attempt : Attempt → Option Held → Bool × Option Held
attempt (acquires now token ttl_ms) key =
    let (won, after) = acquire_lock now token ttl_ms key in (is_some won, after)
attempt (releases now token) key = release_lock now token key

-- How many of the attempts succeed, and what they leave.
unfoldable pub attempt_all : List Attempt → Option Held → ℕ × Option Held
attempt_all [] key = (0, key)
attempt_all (a ∷ more) key =
    let (won, after) = attempt a key in
    let (n, last) = attempt_all more after in ((if won then 1 else 0) + n, last)

-- All come before the lock expires, with tokens of their own.
abbrev pub AreOthers : Held → List Attempt → Type 0
AreOthers h [] = Unit {0}
AreOthers h (a ∷ more) = (time_of a < h.expires_at) × (h.token ≢ token_of a) × AreOthers h more

attempt_fails :
    (h : Held) (a : Attempt)
    → time_of a < h.expires_at
    → h.token ≢ token_of a
    → attempt a (some h) ≡ (false, some h)
unfolding attempt acquire_lock release_lock
attempt_fails h (acquires now token ttl) early other = ground arith
attempt_fails h (releases now token) early other = ground (arith, str_eq_iff h.token token)

attempt_all_fails :
    (h : Held) (more : List Attempt) → AreOthers h more → attempt_all more (some h) ≡ (0, some h)
unfolding attempt_all
attempt_all_fails h [] o = refl
attempt_all_fails h (a ∷ more) (early, other, o) =
    ground (arith, attempt_fails h a early other, attempt_all_fails h more o)

-- Once a caller has the lock, and until it expires, no attempt of the others takes or frees it, in whatever
-- order they come; then the caller can still release it with its own token, and leaves it free.
pub acquire_lock-held :
    (now later : ℕ) (token : String) (ttl_ms : ℕ) (key after : Option Held) (more : List Attempt)
    → acquire_lock now token ttl_ms key ≡ (some token, after)
    → AreOthers (record { token = token; expires_at = now + ttl_ms }) more
    → later < now + ttl_ms
    → (attempt_all more after ≡ (0, after))
      × (release_lock later token (attempt_all more after).1 ≡ (true, none))
unfolding acquire_lock release_lock
acquire_lock-held now later token ttl key after more h o early =
    let mine : Held = record { token = token; expires_at = now + ttl } in
    let is : after ≡ some mine = ground arith in
    let none_wins = attempt_all_fails mine more o in
    rw is (none_wins, rw none_wins (ground (arith, str_eq_iff token token)))
