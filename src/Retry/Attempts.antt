-- ===== src/Retry/Attempts.antt =====
-- src/retry.ts: the loop ends, and with which outcome.
use nodejs_advanced_homework.Prelude.{
  ◌∷◌, ◌*◌, str_eq, zero, suc, sym, refl, ap, str_eq_iff, [], inr, inl, Result-cases, ◌⊎◌, ok,
  or_else, arith, false, Option-cases, ◌≤◌, some, none, String, length, true, ◌+◌, ◌<◌, err, max,
  ◌≡◌, ℕ,
}
use nodejs_advanced_homework.Retry.{
  RetryInfo, retryable_pg_code, get_pg_error_code, RetryOptions, is_retryable_serialization_error,
  with_serialization_retry, retry_code, Thrown, Env, Run, attempt_from,
}

-- A call that failed for a reason that is worth another attempt.
abbrev pub IsRetried : {A : Type 0} → Env A → ℕ → Type 0
IsRetried env k = (e : Thrown) × (env.fn k ≡ err e) × (is_retryable_serialization_error e ≡ true)

-- All calls of a range failed so.
abbrev pub AllRetried : {A : Type 0} → Env A → ℕ → ℕ → Type 0
AllRetried env first zero = Unit {0}
AllRetried env first (suc n) = IsRetried env first × AllRetried env (suc first) n

-- The run's outcome is that of the last call; every earlier one failed with a serialization or
-- deadlock error and was reported; and the last one was a success, or failed for another reason, or used up the
-- attempts.
pub record IsRun {A : Type 0} (env : Env A) (max_attempts first : ℕ) (run : Run A) : Type 0 where
  pub retries : ℕ
  pub calls : run.calls ≡ first + retries
  pub reported : length run.retries ≡ retries
  pub earlier : AllRetried env first retries
  pub last : run.outcome ≡ env.fn run.calls
  pub bound : run.calls ≤ max first max_attempts
  pub ends :
      ((a : A) × (run.outcome ≡ ok a))
      ⊎ ((e : Thrown) × (run.outcome ≡ err e)
          × ((is_retryable_serialization_error e ≡ false) ⊎ (max_attempts ≤ run.calls)))

retry_code-eq-some :
    (m k : ℕ) (e : Thrown) (c : String)
    → retry_code m k e ≡ some c
    → (is_retryable_serialization_error e ≡ true) × (k < m)
unfolding retry_code is_retryable_serialization_error
retry_code-eq-some m k e c h = elim (Option-cases (get_pg_error_code e)) [
  | inl n ↦ absurd (ground arith)
  | inr (d, s) ↦ (ground arith, ground arith)
]

empty_code : (d : String) → str_eq d "" ≡ true → retryable_pg_code d ≡ false
empty_code d h = let e = (str_eq_iff d "").0 h in rw e refl

retry_code-eq-none :
    (m k : ℕ) (e : Thrown)
    → retry_code m k e ≡ none
    → (is_retryable_serialization_error e ≡ false) ⊎ (m ≤ k)
unfolding retry_code is_retryable_serialization_error
retry_code-eq-none m k e h = elim (Option-cases (get_pg_error_code e)) [
  | inl n ↦ inl (ground arith)
  | inr (d, s) ↦ ground (arith, empty_code d)
]

attempt_from-IsRun :
    {A : Type 0} (env : Env A) (m base fuel first : ℕ)
    → max first m < first + fuel
    → (run : Run A) × (attempt_from env m base fuel first ≡ some run) × IsRun env m first run
unfolding attempt_from
attempt_from-IsRun env m base zero first enough = absurd (omega arith)
attempt_from-IsRun env m base (suc fuel) first enough = elim (Result-cases (env.fn first)) [
  | inl (a, e) ↦ (
    record { outcome = ok a; calls = first; retries = [] },
    ground arith,
    record {
      retries = 0;
      calls = omega arith;
      reported = refl;
      earlier = tt;
      last = sym e;
      bound = omega arith;
      ends = inl (a, refl);
    },
  )
  | inr (x, e) ↦ elim (Option-cases (retry_code m first x)) [
    | inl n ↦ (
      record { outcome = err x; calls = first; retries = [] },
      ground arith,
      record {
        retries = 0;
        calls = omega arith;
        reported = refl;
        earlier = tt;
        last = sym e;
        bound = omega arith;
        ends = inr (x, refl, retry_code-eq-none m first x n);
      },
    )
    | inr (c, s) ↦
        let (again, below) = retry_code-eq-some m first x c s in
        let (run, k, i) = attempt_from-IsRun env m base fuel (suc first) (omega arith) in
        let info : RetryInfo = record {
          attempt = first;
          code = c;
          delay_ms = base * first + env.jitter first;
        } in
        (
          record run { retries = info ∷ run.retries },
          ground arith,
          record {
            retries = suc i.retries;
            calls = omega (arith, i.calls);
            reported = ap suc i.reported;
            earlier = ((x, e, again), i.earlier);
            last = i.last;
            bound = omega (arith, i.bound);
            ends = i.ends;
          },
        )
  ]
]

-- With any options, the loop ends within as many calls as there are attempts (and makes one at least).
-- Its outcome is the last call's; every earlier call failed with a serialization or deadlock error and
-- was reported to `onRetry`; and the last one succeeded, or failed for another reason, or was the last allowed.
pub with_serialization_retry-IsRun :
    {A : Type 0} (env : Env A) (options : RetryOptions)
    → (run : Run A) × (with_serialization_retry env options ≡ some run)
      × IsRun env (or_else options.max_attempts 8) 1 run
unfolding with_serialization_retry
with_serialization_retry-IsRun env options =
    attempt_from-IsRun env (or_else options.max_attempts 8) (or_else options.base_delay_ms 20) _ 1
      (omega arith)
