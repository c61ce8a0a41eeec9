-- ===== src/SingleFlight/Tests.antt =====
-- src/redis/single-flight-cache.ts: two callers, the second of which waits for the first.
use nodejs_advanced_homework.Prelude.{
  ◌≡◌, refl, arith, true, List, [], ◌∷◌, none, some, ℕ, String, ◌≤◌, count, All,
}
use nodejs_advanced_homework.Lock.{acquire_lock, release_lock}
use nodejs_advanced_homework.SingleFlight.{
  SingleFlightOptions, Env, reading, ended, returned, Flight, Move, moves, turns, turn, advance,
  read, write,
}
use nodejs_advanced_homework.SingleFlight.Alone.{works, turns-one_works, AreNext}
use nodejs_advanced_homework.SingleFlight.Answers.{told, turns-told, Loaded}

abbrev options : SingleFlightOptions
options = record {
  ttl_base_sec = 60;
  ttl_jitter_sec = 10;
  negative_ttl_base_sec = 5;
  negative_ttl_jitter_sec = 5;
  lock_ttl_ms = 1000;
}

abbrev env : ℕ → String → Env ℕ
env now token = record {
  now = now;
  is_up = true;
  loaded = some (some 7);
  token = token;
  jitter = 3;
}

abbrev two_callers : Flight ℕ
two_callers = record {
  now = 0;
  redis = record { entry = none; lock = none };
  callers = reading ∷ reading ∷ [];
}

abbrev as_far_as_the_load : List (Move ℕ)
as_far_as_the_load =
    moves 0 (env 1 "a")
    ∷ moves 1 (env 2 "b")
    ∷ moves 0 (env 3 "a")
    ∷ moves 1 (env 4 "b")
    ∷ moves 0 (env 5 "c")
    ∷ []

abbrev to_the_end : List (Move ℕ)
to_the_end =
    moves 0 (env 1 "a")
    ∷ moves 1 (env 2 "b")
    ∷ moves 0 (env 3 "a")
    ∷ moves 1 (env 4 "b")
    ∷ moves 0 (env 5 "c")
    ∷ moves 0 (env 6 "c")
    ∷ moves 0 (env 7 "c")
    ∷ moves 0 (env 8 "c")
    ∷ moves 1 (env 9 "d")
    ∷ []

both_told :
    (turns ℕ options to_the_end two_callers).callers
    ≡ ended (returned (some 7)) ∷ ended (returned (some 7)) ∷ []
unfolding turns turn advance read write acquire_lock release_lock
both_told = refl

next : AreNext ℕ options as_far_as_the_load two_callers
unfolding turn advance read write acquire_lock release_lock
next = omega arith

turns-one_works_example :
    count
      (works ℕ (turns ℕ options as_far_as_the_load two_callers).now)
      (turns ℕ options as_far_as_the_load two_callers).callers
    ≤ 1
turns-one_works_example =
    turns-one_works ℕ options as_far_as_the_load two_callers (refl, (refl, tt)) next

turns-told_example :
    All
      (λ p. (o : Loaded ℕ) → told ℕ p ≡ some o → o ≡ some (some 7))
      (turns ℕ options to_the_end two_callers).callers
turns-told_example =
    turns-told ℕ (λ o. o ≡ some (some 7)) options to_the_end two_callers
      (refl, (refl, (refl, (refl, (refl, (refl, (refl, (refl, (refl, tt))))))))) (λ o h. cc)
      (refl, (refl, tt))
