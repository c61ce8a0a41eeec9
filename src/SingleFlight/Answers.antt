-- ===== src/SingleFlight/Answers.antt =====
-- src/redis/single-flight-cache.ts: what a caller is told is what a load gave, whatever Redis does.
use nodejs_advanced_homework.Prelude.{
  All-map, AllBut-all, ◌⊎◌, ◌≡◌, sym, subst, arith, List, [], ◌∷◌, Option, none, some, inl, inr,
  Option-cases, All, All-set_at, All-nth?, nth?, set_at,
}
use nodejs_advanced_homework.Lock.{acquire_lock, release_lock}
use nodejs_advanced_homework.SingleFlight.{
  SingleFlightOptions, Redis, Raw, json, other_text, Outcome, returned, threw, Env, Phase, reading,
  acquiring, polling, loading_directly, checking, loading, writing, releasing, ended, advance, read,
  write, load_directly, Flight, Move, moves, invalidates, env_of, turn, turns, invalidate,
}

module _ (A : Type 0) where
  -- What a load gives: a value, or `none` where it throws.
  abbrev pub Loaded : Type 0
  Loaded = Option (Option A)

  abbrev pub outcome_of : Outcome A → Loaded
  outcome_of (returned value) = some value
  outcome_of threw = none

  -- What a caller has in hand, and at its end what it tells.
  abbrev pub told : Phase A → Option Loaded
  told reading = none
  told acquiring = none
  told polling = none
  told loading_directly = none
  told (checking h) = none
  told (loading h) = none
  told (writing h value) = some (some value)
  told (releasing h outcome) = some (outcome_of outcome)
  told (ended outcome) = some (outcome_of outcome)

  abbrev raw_value : Raw A → Option Loaded
  raw_value (json value) = some (some value)
  raw_value other_text = none

  -- What a hit would give.
  abbrev pub cached : Redis A → Option Loaded
  cached redis = elim redis.entry [ none ↦ none | some e ↦ raw_value e.raw ]

  -- A caller has in hand what it had before, what it reads, or what its load gives.
  advance-told :
      (opts : SingleFlightOptions) (env : Env A) (p : Phase A) (redis : Redis A) (o : Loaded)
      → told (advance A opts env p redis).0 ≡ some o
      → (told p ≡ some o) ⊎ (cached redis ≡ some o) ⊎ (env.loaded ≡ o)
  unfolding advance load_directly acquire_lock read
  advance-told opts env reading redis o h = ground arith
  advance-told opts env acquiring redis o h = absurd (ground arith)
  advance-told opts env polling redis o h = ground arith
  advance-told opts env loading_directly redis o h = inr (inr (ground arith))
  advance-told opts env (checking k) redis o h = ground arith
  advance-told opts env (loading k) redis o h = inr (inr (ground arith))
  advance-told opts env (writing k value) redis o h = inl h
  advance-told opts env (releasing k outcome) redis o h = inl h
  advance-told opts env (ended outcome) redis o h = inl h

  -- Redis keeps what it had, or what a caller writes.
  advance-cached :
      (opts : SingleFlightOptions) (env : Env A) (p : Phase A) (redis : Redis A) (o : Loaded)
      → cached (advance A opts env p redis).1 ≡ some o
      → (told p ≡ some o) ⊎ (cached redis ≡ some o)
  unfolding advance write acquire_lock release_lock
  advance-cached opts env reading redis o h = inr h
  advance-cached opts env acquiring redis o h = inr (ground arith)
  advance-cached opts env polling redis o h = inr h
  advance-cached opts env loading_directly redis o h = inr h
  advance-cached opts env (checking k) redis o h = inr h
  advance-cached opts env (loading k) redis o h = inr h
  advance-cached opts env (writing k value) redis o h = ground arith
  advance-cached opts env (releasing k outcome) redis o h = inr (ground arith)
  advance-cached opts env (ended outcome) redis o h = inr h

module _ (A : Type 0) (Gave : Loaded A → Type 0) where
  -- What callers have in hand and Redis keeps, some load gave.
  record Inv (f : Flight A) : Type 0 where
    tells : All (λ p. (o : Loaded A) → told A p ≡ some o → Gave o) f.callers
    keeps : (o : Loaded A) → cached A f.redis ≡ some o → Gave o

  turn-Inv :
      (opts : SingleFlightOptions) (m : Move A) (f : Flight A)
      → Gave (env_of A m).loaded
      → Inv f
      → Inv (turn A opts m f)
  unfolding turn
  turn-Inv opts (moves i env) f gave inv = elim (Option-cases (nth? i f.callers)) [
    | inl n ↦
        let same : turn A opts (moves i env) f ≡ record f { now = env.now } = ground arith in
        subst Inv (sym same) (record { tells = inv.tells; keeps = inv.keeps })
    | inr (p, e) ↦
        let same : turn A opts (moves i env) f ≡ record {
          now = env.now;
          redis = (advance A opts env p f.redis).1;
          callers = set_at i (advance A opts env p f.redis).0 f.callers;
        } =
          ground arith in
        let mine =
          All-nth? (λ p. (o : Loaded A) → told A p ≡ some o → Gave o) i f.callers inv.tells e in
        subst Inv (sym same) (record {
          tells =
              All-set_at (λ p. (o : Loaded A) → told A p ≡ some o → Gave o) i
                (advance A opts env p f.redis).0 f.callers (AllBut-all _ i f.callers inv.tells)
                (λ o h. elim (advance-told A opts env p f.redis o h) [
                  | inl t ↦ mine o t
                  | inr (inl c) ↦ inv.keeps o c
                  | inr (inr l) ↦ subst Gave l gave
                ]);
          keeps = λ o h. elim (advance-cached A opts env p f.redis o h) [
            | inl t ↦ mine o t
            | inr c ↦ inv.keeps o c
          ];
        })
  ]
  turn-Inv opts (invalidates env) f gave inv = record {
    tells = inv.tells;
    keeps = λ o h. inv.keeps o (unfold invalidate in ground arith);
  }

  turns-Inv :
      (opts : SingleFlightOptions) (ms : List (Move A)) (f : Flight A)
      → All (λ m. Gave (env_of A m).loaded) ms
      → Inv f
      → Inv (turns A opts ms f)
  unfolding turns
  turns-Inv opts [] f gave inv = inv
  turns-Inv opts (m ∷ more) f (g, gave) inv =
      turns-Inv opts more (turn A opts m f) gave (turn-Inv opts m f g inv)

  -- Whatever callers move in whatever order, and whatever Redis answers, loses or forgets: if something
  -- holds of all that loads give, values and errors, and of what the cache holds at the start, then it
  -- holds of what every caller is told. No caller is told of an error unless a load failed.
  pub turns-told :
      (opts : SingleFlightOptions) (ms : List (Move A)) (f : Flight A)
      → All (λ m. Gave (env_of A m).loaded) ms
      → ((o : Loaded A) → cached A f.redis ≡ some o → Gave o)
      → All (λ p. p ≡ reading) f.callers
      → All (λ p. (o : Loaded A) → told A p ≡ some o → Gave o) (turns A opts ms f).callers
  turns-told opts ms f gave keeps start =
      let silent =
        All-map (λ p. p ≡ reading) (λ p. (o : Loaded A) → told A p ≡ some o → Gave o) f.callers
          (λ p e o h. absurd (ground arith)) start in
      (turns-Inv opts ms f gave (record { tells = silent; keeps = keeps })).tells
