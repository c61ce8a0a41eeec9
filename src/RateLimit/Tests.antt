-- ===== src/RateLimit/Tests.antt =====
-- src/rate-limit/sliding-window.ts: two requests in a second, and the third.
use nodejs_advanced_homework.Prelude.{◌+◌, refl, ◌↔◌, ◌≤◌, true, false, arith, [], ◌∷◌, ◌≡◌, List}
use nodejs_advanced_homework.RateLimit.{zadd, trim, RateLimitConfig, Window, hit}
use nodejs_advanced_homework.RateLimit.Bound.{
  IsTrace, Hit, in_window, nothing_stored, allowed_times, allowed_times-in_window,
}
use nodejs_advanced_homework.RateLimit.Waiting.{IsWindow, hit-retry_after_ms}

abbrev two_a_second : RateLimitConfig
two_a_second = record { limit = 2; window_ms = 1000 }

abbrev three_hits : List Hit
three_hits =
    (record { at = 5000; member = "a" })
    ∷ (record { at = 5300; member = "b" })
    ∷ (record { at = 5600; member = "c" })
    ∷ (record { at = 6000; member = "d" })
    ∷ []

three_hits_allowed : allowed_times two_a_second nothing_stored three_hits ≡ 5000 ∷ 5300 ∷ 6000 ∷ []
unfolding allowed_times hit trim zadd
three_hits_allowed = refl

three_hits-IsTrace : IsTrace two_a_second 0 nothing_stored three_hits
unfolding hit trim zadd
three_hits-IsTrace =
    (omega arith, refl, (omega arith, refl, (omega arith, refl, (omega arith, refl, tt))))

allowed_times-in_window_example :
    in_window 1000 5200 (allowed_times two_a_second nothing_stored three_hits) ≤ 2
allowed_times-in_window_example =
    allowed_times-in_window two_a_second three_hits 5200 three_hits-IsTrace

abbrev full_window : Window
full_window = record {
  entries = (record { score = 5000; member = "a" }) ∷ (record { score = 5300; member = "b" }) ∷ [];
  expires_at = 6300;
}

full_window-IsWindow : IsWindow two_a_second 5300 full_window
full_window-IsWindow = record {
  sorted = ((omega arith, tt), (tt, tt));
  short = omega arith;
  early = (omega arith, (omega arith, tt));
  lives = (omega arith, (omega arith, tt));
}

full_window_refuses : (hit two_a_second 5600 "c" full_window).0.allowed ≡ false
unfolding hit trim
full_window_refuses = refl

hit-retry_after_ms_example :
    ((hit two_a_second 6000 "d" (hit two_a_second 5600 "c" full_window).1).0.allowed ≡ true)
    ↔ (5600 + (hit two_a_second 5600 "c" full_window).0.retry_after_ms ≤ 6000)
hit-retry_after_ms_example =
    hit-retry_after_ms two_a_second 5300 5600 6000 "c" "d" full_window (omega arith) (omega arith)
      full_window-IsWindow full_window_refuses
