-- ===== src/SingleFlight/Alone.antt =====
-- src/redis/single-flight-cache.ts: while its lock lives, one caller loads and no other does.
use nodejs_advanced_homework.Prelude.{
  subst, sym, AllBut-map, All-set_at, AllBut-count, All-nth?, Bool-cases, AllBut-weaken, All-map,
  count-set_at, AllBut-each, Option-cases, set_at, AllBut, [], count, nth?, ◌∷◌, All, ◌≤◌, List,
  ◌≡◌, refl, arith, Bool, true, false, String, Option, none, some, ℕ, ◌<◌, inl, inr, ◌⊎◌, str_eq,
  str_eq_iff, ltb,
}
use nodejs_advanced_homework.Lock.{Held, acquire_lock, release_lock}
use nodejs_advanced_homework.SingleFlight.{
  turns, invalidates, moves, invalidate, env_of, turn, Flight, Move, SingleFlightOptions, Redis,
  Env, Phase, reading, acquiring, polling, loading_directly, checking, loading, writing, releasing,
  ended, advance, write,
}

module _ (A : Type 0) where
  -- The lock that a caller took and has not given back.
  abbrev pub holding : Phase A → Option Held
  holding reading = none
  holding acquiring = none
  holding polling = none
  holding loading_directly = none
  holding (checking h) = some h
  holding (loading h) = some h
  holding (writing h value) = some h
  holding (releasing h outcome) = some h
  holding (ended outcome) = none

  abbrev pub has_token : String → Phase A → Bool
  has_token t p = elim (holding p) [ none ↦ false | some h ↦ str_eq h.token t ]

  -- The caller works under a lock that has not run out.
  abbrev pub works : ℕ → Phase A → Bool
  works now p = elim (holding p) [ none ↦ false | some h ↦ ltb now h.expires_at ]

  -- Such a lock is the one in Redis.
  abbrev Guards : ℕ → Option Held → Phase A → Type 0
  Guards now lock p = (h : Held) → holding p ≡ some h → now < h.expires_at → lock ≡ some h

  advance-Guards :
      (opts : SingleFlightOptions) (env : Env A) (p : Phase A) (redis : Redis A)
      → Guards env.now redis.lock p
      → Guards env.now (advance A opts env p redis).1.lock (advance A opts env p redis).0
  unfolding advance acquire_lock write
  advance-Guards opts env reading redis g h e l = ground arith
  advance-Guards opts env acquiring redis g h e l = ground arith
  advance-Guards opts env polling redis g h e l = ground arith
  advance-Guards opts env loading_directly redis g h e l = ground arith
  advance-Guards opts env (checking k) redis g h e l = ground (arith, g h)
  advance-Guards opts env (loading k) redis g h e l = ground (arith, g h)
  advance-Guards opts env (writing k value) redis g h e l = ground (arith, g h)
  advance-Guards opts env (releasing k outcome) redis g h e l = ground (arith, g h)
  advance-Guards opts env (ended outcome) redis g h e l = ground arith

  -- A move leaves the lock of another caller, whose token is not that of the one who moves.
  advance-Guards_others :
      (opts : SingleFlightOptions) (env : Env A) (p q : Phase A) (redis : Redis A)
      → Guards env.now redis.lock q
      → ((h : Held) → holding p ≡ some h → has_token h.token q ≡ false)
      → Guards env.now (advance A opts env p redis).1.lock q
  unfolding advance acquire_lock release_lock write
  advance-Guards_others opts env reading q redis g d h e l = g h e l
  advance-Guards_others opts env acquiring q redis g d h e l = ground (arith, g h e l)
  advance-Guards_others opts env polling q redis g d h e l = g h e l
  advance-Guards_others opts env loading_directly q redis g d h e l = g h e l
  advance-Guards_others opts env (checking k) q redis g d h e l = g h e l
  advance-Guards_others opts env (loading k) q redis g d h e l = g h e l
  advance-Guards_others opts env (writing k value) q redis g d h e l = ground (arith, g h e l)
  advance-Guards_others opts env (releasing k outcome) q redis g d h e l =
      ground (arith, g h e l, d k refl)
  advance-Guards_others opts env (ended outcome) q redis g d h e l = g h e l

  -- A caller keeps its token, drops it, or takes the new one.
  advance-has_token :
      (opts : SingleFlightOptions) (env : Env A) (p : Phase A) (redis : Redis A) (t : String)
      → has_token t (advance A opts env p redis).0 ≡ true
      → (has_token t p ≡ true) ⊎ (t ≡ env.token)
  unfolding advance acquire_lock
  advance-has_token opts env reading redis t h = absurd (ground arith)
  advance-has_token opts env acquiring redis t h = inr (ground (arith, str_eq_iff env.token t))
  advance-has_token opts env polling redis t h = absurd (ground arith)
  advance-has_token opts env loading_directly redis t h = absurd (ground arith)
  advance-has_token opts env (checking k) redis t h = inl (ground arith)
  advance-has_token opts env (loading k) redis t h = inl (ground arith)
  advance-has_token opts env (writing k value) redis t h = inl h
  advance-has_token opts env (releasing k outcome) redis t h = absurd (ground arith)
  advance-has_token opts env (ended outcome) redis t h = absurd (ground arith)

  record Inv (f : Flight A) : Type 0 where
    guarded : All (Guards f.now f.redis.lock) f.callers
    tokens : (t : String) → count (has_token t) f.callers ≤ 1

  -- The clock does not go back, and the random token is no caller's.
  abbrev pub IsNext : Move A → Flight A → Type 0
  IsNext m f = (f.now ≤ (env_of A m).now) × (count (has_token (env_of A m).token) f.callers ≡ 0)

  abbrev pub AreNext : SingleFlightOptions → List (Move A) → Flight A → Type 0
  AreNext opts [] f = Unit {0}
  AreNext opts (m ∷ more) f = IsNext m f × AreNext opts more (turn A opts m f)

  -- The others, as seen by the one that moves.
  others-differ :
      (i : ℕ) (p : Phase A) (callers : List (Phase A))
      → nth? i callers ≡ some p
      → ((t : String) → count (has_token t) callers ≤ 1)
      → AllBut i (λ q. (h : Held) → holding p ≡ some h → has_token h.token q ≡ false) callers
  others-differ i p callers e one = elim (Option-cases (holding p)) [
    | inl n ↦ AllBut-each _ i callers (λ q h k. absurd (ground arith))
    | inr (k, a) ↦
        let mine : has_token k.token p ≡ true = ground (arith, str_eq_iff k.token k.token) in
        AllBut-weaken _ _ i callers
          (AllBut-count (has_token k.token) i callers e mine (one k.token))
          (λ q d h b. let same : k ≡ h = ground arith in rw (← same) d)
  ]

  later :
      (now now' : ℕ) (lock : Option Held) (p : Phase A)
      → now ≤ now'
      → Guards now lock p
      → Guards now' lock p
  later now now' lock p le g h e l = g h e (omega arith)

  moves-tokens :
      (opts : SingleFlightOptions) (i : ℕ) (env : Env A) (p : Phase A) (f : Flight A) (t : String)
      → nth? i f.callers ≡ some p
      → count (has_token env.token) f.callers ≡ 0
      → count (has_token t) f.callers ≤ 1
      → count (has_token t) (set_at i (advance A opts env p f.redis).0 f.callers) ≤ 1
  moves-tokens opts i env p f t e fresh one =
      let q = (advance A opts env p f.redis).0 in
      let sums = count-set_at (has_token t) i q f.callers e in
      elim (Bool-cases (has_token t q)) [
        | inr n ↦ ground arith
        | inl y ↦ elim (advance-has_token opts env p f.redis t y) [
          | inl kept ↦ ground arith
          | inr new ↦
              let none_has : count (has_token t) f.callers ≡ 0 = rw new fresh in ground arith
        ]
      ]

  moves-Inv :
      (opts : SingleFlightOptions) (i : ℕ) (env : Env A) (p : Phase A) (f : Flight A)
      → nth? i f.callers ≡ some p
      → IsNext (moves i env) f
      → Inv f
      → Inv (record {
        now = env.now;
        redis = (advance A opts env p f.redis).1;
        callers = set_at i (advance A opts env p f.redis).0 f.callers;
      })
  moves-Inv opts i env p f e (le, fresh) inv =
      let aged =
        All-map (Guards f.now f.redis.lock) (Guards env.now f.redis.lock) f.callers
          (λ q g. later f.now env.now f.redis.lock q le g) inv.guarded in
      let mine = All-nth? (Guards env.now f.redis.lock) i f.callers aged e in
      record {
        guarded =
            All-set_at (Guards env.now (advance A opts env p f.redis).1.lock) i
              (advance A opts env p f.redis).0 f.callers
              (AllBut-map (Guards env.now f.redis.lock)
                (λ q. (h : Held) → holding p ≡ some h → has_token h.token q ≡ false) _ i f.callers
                aged (others-differ i p f.callers e inv.tokens)
                (λ q g d. advance-Guards_others opts env p q f.redis g d))
              (advance-Guards opts env p f.redis mine);
        tokens = λ t. moves-tokens opts i env p f t e fresh (inv.tokens t);
      }

  aged-Inv : (now : ℕ) (f : Flight A) → f.now ≤ now → Inv f → Inv (record f { now = now })
  aged-Inv now f le inv = record {
    guarded =
        All-map (Guards f.now f.redis.lock) (Guards now f.redis.lock) f.callers
          (λ q g. later f.now now f.redis.lock q le g) inv.guarded;
    tokens = inv.tokens;
  }

  turn-Inv :
      (opts : SingleFlightOptions) (m : Move A) (f : Flight A)
      → IsNext m f
      → Inv f
      → Inv (turn A opts m f)
  unfolding turn invalidate
  turn-Inv opts (moves i env) f next inv = elim (Option-cases (nth? i f.callers)) [
    | inl n ↦
        let same : turn A opts (moves i env) f ≡ record f { now = env.now } = ground arith in
        subst Inv (sym same) (aged-Inv env.now f next.0 inv)
    | inr (p, e) ↦
        let same : turn A opts (moves i env) f ≡ record {
          now = env.now;
          redis = (advance A opts env p f.redis).1;
          callers = set_at i (advance A opts env p f.redis).0 f.callers;
        } =
          ground arith in
        subst Inv (sym same) (moves-Inv opts i env p f e next inv)
  ]
  turn-Inv opts (invalidates env) f next inv =
      let same : turn A opts (invalidates env) f
          ≡ record f { now = env.now; redis = invalidate A env f.redis } =
        refl in
      let lock : (invalidate A env f.redis).lock ≡ f.redis.lock = ground arith in
      record { guarded = rw lock (aged-Inv env.now f next.0 inv).guarded; tokens = inv.tokens }

  turns-Inv :
      (opts : SingleFlightOptions) (ms : List (Move A)) (f : Flight A)
      → AreNext opts ms f
      → Inv f
      → Inv (turns A opts ms f)
  unfolding turns
  turns-Inv opts [] f next inv = inv
  turns-Inv opts (m ∷ more) f (n, next) inv =
      turns-Inv opts more (turn A opts m f) next (turn-Inv opts m f n inv)

  works-has_token :
      (now : ℕ) (k : Held) (callers : List (Phase A))
      → All (Guards now (some k)) callers
      → count (works now) callers ≤ count (has_token k.token) callers
  works-has_token now k [] g = omega arith
  works-has_token now k (p ∷ ps) (g, gs) =
      let rest = works-has_token now k ps gs in
      elim (Option-cases (holding p)) [
        | inl n ↦ ground arith
        | inr (h, e) ↦ ground (arith, g h e, str_eq_iff h.token k.token)
      ]

  works-none :
      (now : ℕ) (callers : List (Phase A))
      → All (Guards now none) callers
      → count (works now) callers ≡ 0
  works-none now [] g = refl
  works-none now (p ∷ ps) (g, gs) =
      let rest = works-none now ps gs in
      elim (Option-cases (holding p)) [ inl n ↦ ground arith | inr (h, e) ↦ ground (arith, g h e) ]

  one_works : (f : Flight A) → Inv f → count (works f.now) f.callers ≤ 1
  one_works f inv = elim (Option-cases f.redis.lock) [
    | inl n ↦ omega (arith, works-none f.now f.callers (rw n at inv.guarded))
    | inr (k, e) ↦
        omega (arith, works-has_token f.now k f.callers (rw e at inv.guarded), inv.tokens k.token)
  ]

  start-Inv :
      (f : Flight A) (callers : List (Phase A))
      → All (λ p. p ≡ reading) callers
      → All (Guards f.now f.redis.lock) callers × ((t : String) → count (has_token t) callers ≡ 0)
  start-Inv f [] all = (tt, λ t. refl)
  start-Inv f (p ∷ ps) (e, all) =
      let (g, c) = start-Inv f ps all in ((λ h k l. ground arith, g), λ t. ground (arith, c t))

  -- However the callers of one key move, whenever the lock is taken, runs out or is given back, and whether
  -- or not Redis answers: if every token is new and the clock does not go back, then of the callers who
  -- took the lock and still check, load, write or release under it, at most one has a lock that has not run out.
  pub turns-one_works :
      (opts : SingleFlightOptions) (ms : List (Move A)) (f : Flight A)
      → All (λ p. p ≡ reading) f.callers
      → AreNext opts ms f
      → count (works (turns A opts ms f).now) (turns A opts ms f).callers ≤ 1
  turns-one_works opts ms f start next =
      let (guarded, fresh) = start-Inv f f.callers start in
      one_works (turns A opts ms f) (
        turns-Inv opts ms f next
          (record { guarded = guarded; tokens = λ t. omega (arith, fresh t) }))
