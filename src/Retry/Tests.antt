-- ===== src/Retry/Tests.antt =====
-- src/retry.ts: a callback that fails twice with a serialization error, then succeeds.
use nodejs_advanced_homework.Prelude.{
  refl, [], ◌∷◌, ltb, if◌then◌else◌, ◌≡◌, ℕ, none, some, ok, err,
}
use nodejs_advanced_homework.Retry.{
  get_pg_error_code, retry_code, attempt_from, Env, RetryOptions, Run, Thrown, pg_like,
  with_serialization_retry,
}
use nodejs_advanced_homework.Retry.Attempts.{IsRun, with_serialization_retry-IsRun}

abbrev serialization_failure : Thrown
serialization_failure = pg_like (some "40001") none

abbrev third_time : Env ℕ
third_time = record {
  fn = λ n. if ltb n 3 then err serialization_failure else ok 7;
  jitter = λ n. n;
}

abbrev defaults : RetryOptions
defaults = record { max_attempts = none; base_delay_ms = none }

third_time_calls :
    with_serialization_retry third_time defaults
    ≡ some (record {
      outcome = ok 7;
      calls = 3;
      retries =
          (record { attempt = 1; code = "40001"; delay_ms = 21 })
          ∷ (record { attempt = 2; code = "40001"; delay_ms = 42 })
          ∷ [];
    })
unfolding with_serialization_retry attempt_from retry_code get_pg_error_code
third_time_calls = refl

with_serialization_retry-IsRun_example :
    (run : Run ℕ) × (with_serialization_retry third_time defaults ≡ some run)
    × IsRun third_time 8 1 run
with_serialization_retry-IsRun_example = with_serialization_retry-IsRun third_time defaults
