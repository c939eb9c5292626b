-- ===== src/CircuitBreaker.antt =====
-- src/delivery_service/retry_policy.py: `CircuitBreaker`, and the use that
-- src/delivery_service/integrations.py makes of it in `RouteServiceAdapter.estimate`. Times are ticks of
-- the monotonic clock; each method takes the clock's reading as `now`. Its lock makes a method atomic.
pub mod Sharing
pub mod Protocol
use innoprog_fastapi_deliver.Prelude.{
  ℕ, ◌+◌, Bool, true, false, not, ◌||◌, Option, none, some, number_eq, ◌==◌, ltb, leb,
  if◌then◌else◌, Exec, pure, raise, gets, modify, raise_if, ◌>>=◌, ◌>>◌, Result, ok, err,
}
use innoprog_fastapi_deliver.Errors.{
  Error, assertion_error, circuit_open, cancelled_error, route_service_unavailable,
  invalid_route_response, route_request_rejected, unlisted,
}

pub data CircuitState : Type 0 where
  closed : CircuitState
  opened : CircuitState
  half_open : CircuitState

pub record CircuitPermit : Type 0 where
  pub half_open_probe : Bool

pub record Breaker : Type 0 where
  pub state : CircuitState
  pub consecutive_failures : ℕ
  pub opened_at : Option ℕ
  pub probe_in_flight : Bool

-- How the retried requests of one lookup ended. The client, the retries and the deadline are third
-- parties; `estimate` sees one of these.
pub data Lookup (A : Type 0) : Type 0 where
  answered : A → Lookup A
  cancelled : Lookup A  -- asyncio.CancelledError
  deadline : Lookup A  -- TimeoutError
  timed_out : Lookup A  -- httpx.TimeoutException
  unreachable : Lookup A  -- httpx.RequestError
  invalid_payload : Lookup A  -- InvalidRouteResponse
  refused : ℕ → Lookup A  -- httpx.HTTPStatusError with its status code
  other : ℕ → Lookup A  -- an exception that no clause names

-- CircuitBreaker.__init__
abbrev pub fresh : Breaker
fresh = record {
  state = closed;
  consecutive_failures = 0;
  opened_at = none;
  probe_in_flight = false;
}

unfoldable pub open_now : ℕ → Breaker → Breaker
open_now now b = record b { state = opened; opened_at = some now }

module _ (failure_threshold recovery_timeout : ℕ) where
  -- `acquire` of a circuit that is not closed, by the time at which it opened
  unfoldable pub reserve : ℕ → Option ℕ → Exec Breaker Error CircuitPermit
  reserve now none = raise assertion_error
  reserve now (some since) = do
    raise_if (ltb now (since + recovery_timeout)) (circuit_open "route service circuit is open")
    modify (λ b. record b { state = half_open })
    probing ← gets (λ b. b.probe_in_flight)
    raise_if probing (circuit_open "route service recovery probe is already running")
    modify (λ b. record b { probe_in_flight = true })
    pure (record { half_open_probe = true })

  unfoldable pub acquire : ℕ → Exec Breaker Error CircuitPermit
  unfolding reserve
  acquire now b = elim b.state [
    | closed ↦ (ok (record { half_open_probe = false }), b)
    | opened ↦ reserve now b.opened_at b
    | half_open ↦ reserve now b.opened_at b
  ]

  unfoldable pub record_success : CircuitPermit → Breaker → Breaker
  record_success permit b = record b {
    state = closed;
    consecutive_failures = 0;
    opened_at = none;
    probe_in_flight = if permit.half_open_probe then false else b.probe_in_flight;
  }

  unfoldable pub record_failure : CircuitPermit → ℕ → Breaker → Breaker
  unfolding open_now
  record_failure permit now b =
      if permit.half_open_probe
      then open_now now (record b { probe_in_flight = false })
      else let b' = record b { consecutive_failures = b.consecutive_failures + 1 } in
        if leb failure_threshold b'.consecutive_failures then open_now now b' else b'

  unfoldable pub abandon : CircuitPermit → ℕ → Breaker → Breaker
  unfolding open_now
  abandon permit now b =
      if permit.half_open_probe then open_now now (record b { probe_in_flight = false }) else b

  -- `try: permit = await self._circuit_breaker.acquire()`
  abbrev pub admit : ℕ → Exec Breaker Error CircuitPermit
  admit now b =
      let (result, b') = acquire now b in
      elim result [
        | err (circuit_open _) ↦
            (err (route_service_unavailable "route service is temporarily disabled"), b')
        | r ↦ (r, b')
      ]

  module _ {A : Type 0} where
    -- `record_failure`, then the clause's `raise`
    abbrev pub fail_with : Error → CircuitPermit → ℕ → Exec Breaker Error A
    fail_with e permit now = do modify (record_failure permit now); raise e

    -- the clauses of the second `try` of `estimate`
    unfoldable pub settle : CircuitPermit → ℕ → Lookup A → Exec Breaker Error A
    settle permit now (answered result) = do modify (record_success permit); pure result
    settle permit now cancelled = do modify (abandon permit now); raise cancelled_error
    settle permit now deadline =
        fail_with (route_service_unavailable "route lookup deadline exceeded") permit now
    settle permit now timed_out =
        fail_with (route_service_unavailable "route service timed out") permit now
    settle permit now unreachable =
        fail_with (route_service_unavailable "route service is unreachable") permit now
    settle permit now invalid_payload = fail_with invalid_route_response permit now
    settle permit now (refused status) =
        if status == 400 || status == 404 || status == 422
        then (do modify (record_success permit); raise route_request_rejected)
        else fail_with (route_service_unavailable "route service returned an error") permit now
    settle permit now (other e) = raise (unlisted e)

    -- one lookup, asked at one time and answered at another
    unfoldable pub estimate : ℕ → ℕ → Lookup A → Exec Breaker Error A
    estimate asked_at answered_at lookup = do
      permit ← admit asked_at
      settle permit answered_at lookup
