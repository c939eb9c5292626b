-- ===== src/Tests/Limits.antt =====
-- The rate limiter at concrete inputs.
use innoprog_fastapi_deliver.Prelude.{
  ℕ, String, ◌≤◌, ◌≡◌, refl, true, false, not, [], ◌∷◌, List, length, arith, ok, ltb,
}
use innoprog_fastapi_deliver.Dict
use innoprog_fastapi_deliver.RateLimiter.{
  Requests, RateLimitDecision, check_many, expire, expire_all, consume, longest_wait,
}
use innoprog_fastapi_deliver.RateLimiter.Window.{Log, recent, times}
use innoprog_fastapi_deliver.RateLimiter.Decision.{
  Run, starts, checks, has_room, window_is_bounded, check_follows_log,
}

opened : Unit {0}
unfolding check_many expire expire_all consume longest_wait Dict.get Dict.put
opened = tt

-- One slot for each key in ten seconds.
abbrev window : ℕ
window = 10000000

abbrev keys : List String
keys = "network" ∷ "subject" ∷ []

abbrev once : Requests
once = (check_many 1 window keys 5 []).1

abbrev once_log : Log
once_log = (keys, 5) ∷ []

once-Run : Run 1 window once once_log 5
unfolding opened
once-Run = checks keys 5 [] [] 0 starts (omega arith) refl refl

window_is_bounded_example : length (recent 1 window 5 (times "subject" once_log)) ≤ 1
window_is_bounded_example =
    window_is_bounded 1 window once once_log 5 "subject" (omega arith) once-Run

check_follows_log_example :
    (d : RateLimitDecision) × ((check_many 1 window ("subject" ∷ []) 9 once).0 ≡ ok d)
    × (d.allowed ≡ has_room 1 window 9 once_log ("subject" ∷ []))
    × (ltb 0 d.retry_after_seconds ≡ not d.allowed)
check_follows_log_example =
    check_follows_log 1 window once once_log 5 ("subject" ∷ []) 9 (omega arith) once-Run
      (omega arith) refl refl

-- The second check waits for the window to pass.
refused :
    (check_many 1 window ("subject" ∷ []) 9 once).0
    ≡ ok (record { allowed = false; retry_after_seconds = 10 })
unfolding opened
refused = refl

admitted_later :
    (check_many 1 window ("subject" ∷ []) 10000005 once).0
    ≡ ok (record { allowed = true; retry_after_seconds = 0 })
unfolding opened
admitted_later = refl
