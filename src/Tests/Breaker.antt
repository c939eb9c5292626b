-- ===== src/Tests/Breaker.antt =====
-- The circuit breaker at concrete inputs.
use innoprog_fastapi_deliver.Prelude.{
  ℕ, ◌≤◌, ◌<◌, ◌≡◌, ◌⊎◌, refl, true, false, some, [], ◌∷◌, err, ok, arith,
}
use innoprog_fastapi_deliver.Errors.{assertion_error, route_service_unavailable}
use innoprog_fastapi_deliver.CircuitBreaker.{
  Breaker, closed, opened, half_open, fresh, open_now, reserve, acquire, record_success,
  record_failure, abandon, Lookup, answered, cancelled, unreachable, other, settle, estimate,
}
use innoprog_fastapi_deliver.CircuitBreaker.Sharing.{
  normal, Run, starts, acquires, settles_normal, at_most_one_probe,
}
use innoprog_fastapi_deliver.CircuitBreaker.Protocol.{
  acquire_follows_states, Gate, opens_at_threshold, failing, probe_outcome, Probed,
}

unfolded : Unit {0}
unfolding acquire reserve record_success record_failure abandon open_now settle estimate
unfolded = tt

-- one failure opens a circuit of threshold 1 with a timeout of 30; at 50 a probe is handed out
abbrev broken : Breaker
broken = record {
  state = opened;
  consecutive_failures = 1;
  opened_at = some 10;
  probe_in_flight = false;
}

abbrev probed : Breaker
probed = record {
  state = half_open;
  consecutive_failures = 1;
  opened_at = some 10;
  probe_in_flight = true;
}

broken-Run : Run 1 30 broken 0
unfolding unfolded
broken-Run = settles_normal 10 unreachable fresh 0 (acquires 5 fresh 0 starts)

probed-Run : Run 1 30 probed 1
unfolding unfolded
probed-Run = acquires 50 broken 0 broken-Run

at_most_one_probe_example :
    (1 ≤ 1)
    × (probed.state ≡ closed → probed.consecutive_failures < 1)
    × ¬ ((acquire 1 30 60 probed).0 ≡ err assertion_error)
at_most_one_probe_example = at_most_one_probe 1 30 probed 1 60 (omega arith) probed-Run

acquire_follows_states_example :
    ((probed.state ≡ closed) × (acquire 1 30 60 probed ≡ (ok normal, probed)))
    ⊎ ((¬ (probed.state ≡ closed)) × Gate 1 30 60 probed probed.opened_at (acquire 1 30 60 probed))
acquire_follows_states_example = acquire_follows_states 1 30 60 probed 1 (omega arith) probed-Run

opens_at_threshold_example :
    let healthy = record_success 3 30 normal broken in
    ((failing 3 30 (11 ∷ 12 ∷ []) healthy).state ≡ closed)
    × ((failing 3 30 (11 ∷ 12 ∷ 13 ∷ []) healthy).state ≡ opened)
    × ((failing 3 30 (11 ∷ 12 ∷ 13 ∷ []) healthy).opened_at ≡ some 13)
opens_at_threshold_example = opens_at_threshold 3 30 broken normal (11 ∷ 12 ∷ []) 13 refl

abbrev a_cancellation : Lookup ℕ
a_cancellation = cancelled

probe_outcome_example : Probed 1 30 55 a_cancellation (estimate 1 30 50 55 a_cancellation broken).1
probe_outcome_example =
    probe_outcome 1 30 50 55 10 a_cancellation broken (λ e. ground (arith, e)) refl refl
      (omega arith)

abbrev an_answer : Lookup ℕ
an_answer = answered 4

abbrev a_surprise : Lookup ℕ
a_surprise = other 0

-- An exception that no clause names leaves the probe taken: ages later the circuit still refuses.
leaked :
    (estimate 1 30 9000 9001 an_answer (estimate 1 30 50 55 a_surprise broken).1).0
    ≡ err (route_service_unavailable "route service is temporarily disabled")
unfolding unfolded
leaked = refl

healed : estimate 1 30 50 55 an_answer broken ≡ (ok 4, fresh)
unfolding unfolded
healed = refl
