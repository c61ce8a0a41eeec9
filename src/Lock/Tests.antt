-- ===== src/Lock/Tests.antt =====
-- src/redis/lock.ts: two callers.
use nodejs_advanced_homework.Prelude.{
  [], str_eq_iff, refl, true, arith, ◌∷◌, some, String, ◌≡◌, none, ◌≢◌, List,
}
use nodejs_advanced_homework.Lock.{Held, acquire_lock, release_lock}
use nodejs_advanced_homework.Lock.Holding.{
  releases, acquires, attempt_all, Attempt, acquire_lock-held,
}

abbrev mine : Held
mine = record { token = "a"; expires_at = 1500 }

abbrev others : List Attempt
others = acquires 1100 "b" 500 ∷ releases 1200 "b" ∷ []

mine_is_taken : acquire_lock 1000 "a" 500 none ≡ (some "a", some mine)
unfolding acquire_lock
mine_is_taken = refl

b_is_other : ◌≢◌ {A = String} "a" "b"
b_is_other e = absurd (ground (arith, (str_eq_iff "a" "b").1 e))

acquire_lock-held_example :
    (attempt_all others (some mine) ≡ (0, some mine))
    × (release_lock 1300 "a" (attempt_all others (some mine)).1 ≡ (true, none))
acquire_lock-held_example =
    acquire_lock-held 1000 1300 "a" 500 none (some mine) others mine_is_taken
      (omega arith, b_is_other, (omega arith, b_is_other, tt)) (omega arith)
