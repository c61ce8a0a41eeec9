-- ===== src/SingleFlight.antt =====
-- src/redis/single-flight-cache.ts: a cache in Redis whose misses one caller loads while the others wait. A caller
-- is a state machine that moves from one `await` to the next; the callers move in any order. Times are in
-- milliseconds. A command that throws has not been carried out.
pub mod Alone
pub mod Answers
pub mod Tests
use nodejs_advanced_homework.Prelude.{
  set_at, nth?, ◌%◌, ℕ, zero, suc, ◌+◌, ◌*◌, Bool, true, false, Option, none, some, List, [], ◌∷◌,
  String, ltb, if◌then◌else◌,
}
use nodejs_advanced_homework.Lock.{Held, acquire_lock, release_lock}

pub record SingleFlightOptions : Type 0 where
  pub ttl_base_sec : ℕ
  pub ttl_jitter_sec : ℕ
  pub negative_ttl_base_sec : ℕ
  pub negative_ttl_jitter_sec : ℕ
  pub lock_ttl_ms : ℕ

module _ (A : Type 0) where
  -- what is stored under the key: a JSON object with the value, `null` included, or some other text
  pub data Raw : Type 0 where
    json : Option A → Raw
    other_text : Raw

  pub record Entry : Type 0 where
    pub raw : Raw
    pub expires_at : ℕ

  pub record Redis : Type 0 where
    pub entry : Option Entry
    pub lock : Option Held

  -- The environment of one move: the clock, whether Redis answers, what `load` gives (`none` if it throws),
  -- the random token, and the random part of the time to live.
  pub record Env : Type 0 where
    pub now : ℕ
    pub is_up : Bool
    pub loaded : Option (Option A)
    pub token : String
    pub jitter : ℕ

  pub data Read : Type 0 where
    hit : Option A → Read
    miss down : Read

  pub data Outcome : Type 0 where
    returned : Option A → Outcome
    threw : Outcome

  -- Where a caller of `getOrLoad` stands. A lock is kept with the time when it runs out.
  pub data Phase : Type 0 where
    reading acquiring polling loading_directly : Phase
    checking : Held → Phase
    loading : Held → Phase
    writing : Held → Option A → Phase
    releasing : Held → Outcome → Phase
    ended : Outcome → Phase

  abbrev read_raw : Raw → Read
  read_raw (json value) = hit value
  read_raw other_text = miss

  abbrev get : ℕ → Option Entry → Read
  get now none = miss
  get now (some e) = if ltb now e.expires_at then read_raw e.raw else miss

  unfoldable pub read : Env → Redis → Read
  read env redis = if env.is_up then get env.now redis.entry else down

  unfoldable pub ttl_seconds : SingleFlightOptions → Env → Bool → ℕ
  ttl_seconds opts env found =
      (if found then opts.ttl_base_sec else opts.negative_ttl_base_sec)
      + env.jitter % ((if found then opts.ttl_jitter_sec else opts.negative_ttl_jitter_sec) + 1)

  abbrev found : Option A → Bool
  found none = false
  found (some a) = true

  unfoldable pub write : SingleFlightOptions → Env → Option A → Redis → Redis
  unfolding ttl_seconds
  write opts env value redis =
      if env.is_up
      then record redis {
        entry = some (record {
          raw = json value;
          expires_at = env.now + ttl_seconds opts env (found value) * 1000;
        });
      }
      else redis

  -- `load()` without the lock
  unfoldable pub load_directly : Env → Phase
  load_directly env = elim env.loaded [ none ↦ ended threw | some value ↦ ended (returned value) ]

  -- after a read: its value, the database if Redis is away, or the next try for the lock
  abbrev pub after_read : Read → Phase
  after_read (hit value) = ended (returned value)
  after_read miss = acquiring
  after_read down = loading_directly

  abbrev try_lock : Env → ℕ → Redis → Phase × Redis
  try_lock env lock_ttl_ms redis =
      let (won, lock) = acquire_lock env.now env.token lock_ttl_ms redis.lock in
      (
        elim won [
          | none ↦ polling
          | some token ↦ checking (record { token = token; expires_at = env.now + lock_ttl_ms })
        ],
        record redis { lock = lock },
      )

  abbrev after_check : Held → Read → Phase
  after_check h (hit value) = releasing h (returned value)
  after_check h miss = loading h
  after_check h down = loading h

  -- One move of a caller.
  unfoldable pub advance : SingleFlightOptions → Env → Phase → Redis → Phase × Redis
  unfolding read write load_directly
  advance opts env reading redis = (after_read (read env redis), redis)
  advance opts env acquiring redis =
      if env.is_up then try_lock env opts.lock_ttl_ms redis else (loading_directly, redis)
  advance opts env polling redis = (after_read (read env redis), redis)
  advance opts env loading_directly redis = (load_directly env, redis)
  advance opts env (checking h) redis = (after_check h (read env redis), redis)
  advance opts env (loading h) redis =
      (elim env.loaded [ none ↦ releasing h threw | some value ↦ writing h value ], redis)
  advance opts env (writing h value) redis =
      (releasing h (returned value), write opts env value redis)
  advance opts env (releasing h outcome) redis = (
    ended outcome,
    if env.is_up
        then record redis { lock = (release_lock env.now h.token redis.lock).1 }
        else redis,
  )
  advance opts env (ended outcome) redis = (ended outcome, redis)

  unfoldable pub invalidate : Env → Redis → Redis
  invalidate env redis = if env.is_up then record redis { entry = none } else redis

  -- All callers of one key, and the time of the last move.
  pub record Flight : Type 0 where
    pub now : ℕ
    pub redis : Redis
    pub callers : List Phase

  -- A caller moves, or some other code drops the key.
  pub data Move : Type 0 where
    moves : (caller : ℕ) (env : Env) → Move
    invalidates : (env : Env) → Move

  abbrev pub env_of : Move → Env
  env_of (moves caller env) = env
  env_of (invalidates env) = env

  unfoldable pub turn : SingleFlightOptions → Move → Flight → Flight
  unfolding advance invalidate
  turn opts (moves caller env) f = elim (nth? caller f.callers) [
    | none ↦ record f { now = env.now }
    | some p ↦ record {
      now = env.now;
      redis = (advance opts env p f.redis).1;
      callers = set_at caller (advance opts env p f.redis).0 f.callers;
    }
  ]
  turn opts (invalidates env) f = record f { now = env.now; redis = invalidate env f.redis }

  unfoldable pub turns : SingleFlightOptions → List Move → Flight → Flight
  unfolding turn
  turns opts [] f = f
  turns opts (m ∷ more) f = turns opts more (turn opts m f)
