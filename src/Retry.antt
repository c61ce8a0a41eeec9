-- ===== src/Retry.antt =====
-- src/retry.ts: a transaction callback that is run again on serialization and deadlock failures. The
-- outcome of each call of the callback and the jitter are the environment.
pub mod Tests
pub mod Attempts
use nodejs_advanced_homework.Prelude.{
  ℕ, zero, suc, ◌+◌, ◌*◌, max, Bool, true, false, not, ◌||◌, Option, none, some, List, [], ◌∷◌,
  String, str_eq, leb, if◌then◌else◌, or_else, Result, ok, err,
}

-- What is thrown: `code` and `driverError.code` of an object, or a value that is no object.
pub data Thrown : Type 0 where
  pg_like : (code driver_code : Option String) → Thrown
  other : Thrown

unfoldable pub get_pg_error_code : Thrown → Option String
get_pg_error_code (pg_like (some code) driver_code) = some code
get_pg_error_code (pg_like none driver_code) = driver_code
get_pg_error_code other = none

-- `RETRYABLE_PG_CODES.has(code)`
abbrev pub retryable_pg_code : String → Bool
retryable_pg_code code = str_eq code "40001" || str_eq code "40P01"

unfoldable pub is_retryable_serialization_error : Thrown → Bool
is_retryable_serialization_error error = elim (get_pg_error_code error) [
  | none ↦ false
  | some code ↦ retryable_pg_code code
]

pub record RetryOptions : Type 0 where
  pub max_attempts : Option ℕ
  pub base_delay_ms : Option ℕ

pub record RetryInfo : Type 0 where
  pub attempt : ℕ
  pub code : String
  -- what `sleep` is given after `onRetry`
  pub delay_ms : ℕ

pub record Run (A : Type 0) : Type 0 where
  pub outcome : Result Thrown A
  pub calls : ℕ
  pub retries : List RetryInfo

pub record Env (A : Type 0) : Type 0 where
  -- what `fn` does when it is called for the n-th time
  pub fn : ℕ → Result Thrown A
  -- `Math.floor(Math.random() * baseDelayMs)`, for each attempt
  pub jitter : ℕ → ℕ

-- The code that a failed attempt is retried for.
unfoldable pub retry_code : ℕ → ℕ → Thrown → Option String
retry_code max_attempts attempt error = elim (get_pg_error_code error) [
  | none ↦ none
  | some code ↦
      if str_eq code "" || (not (retryable_pg_code code) || leb max_attempts attempt)
      then none
      else some code
]

abbrev pub retried : {A : Type 0} → RetryInfo → Run A → Run A
retried info run = record run { retries = info ∷ run.retries }

-- The loop, from an attempt on; none is a loop that the fuel does not see the end of.
unfoldable pub attempt_from : {A : Type 0} → Env A → ℕ → ℕ → ℕ → ℕ → Option (Run A)
attempt_from env max_attempts base zero attempt = none
attempt_from env max_attempts base (suc fuel) attempt =
    let rest = attempt_from env max_attempts base fuel (suc attempt) in
    elim (env.fn attempt) [
      | ok a ↦ some (record { outcome = ok a; calls = attempt; retries = [] })
      | err error ↦ elim (retry_code max_attempts attempt error) [
        | none ↦ some (record { outcome = err error; calls = attempt; retries = [] })
        | some code ↦ elim rest [
          | none ↦ none
          | some run ↦ some (
              retried
                (record {
                  attempt = attempt;
                  code = code;
                  delay_ms = base * attempt + env.jitter attempt;
                })
                run)
        ]
      ]
    ]

unfoldable pub with_serialization_retry : {A : Type 0} → Env A → RetryOptions → Option (Run A)
with_serialization_retry env options =
    let max_attempts = or_else options.max_attempts 8 in
    attempt_from env max_attempts (or_else options.base_delay_ms 20) (max 1 max_attempts) 1
