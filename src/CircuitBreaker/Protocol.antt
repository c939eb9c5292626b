-- ===== src/CircuitBreaker/Protocol.antt =====
-- What a circuit breaker lets through, when it opens and how a probe ends.
use innoprog_fastapi_deliver.Prelude.{
  ℕ, ◌+◌, ◌≤◌, ◌<◌, ◌≡◌, refl, true, false, Option, none, some, arith, Result, ok, err, List, [],
  ◌∷◌, ◌++◌, length, ◌⊎◌,
}
use innoprog_fastapi_deliver.Errors.{Error, circuit_open}
use innoprog_fastapi_deliver.CircuitBreaker.{
  Breaker, CircuitPermit, closed, opened, half_open, open_now, reserve, acquire, record_success,
  record_failure, abandon, Lookup, answered, refused, other, settle, estimate,
}
use innoprog_fastapi_deliver.CircuitBreaker.Sharing.{normal, probe, Run, Run-IsSound}

module _ (failure_threshold recovery_timeout : ℕ) where
  abbrev pub take_permit : ℕ → Breaker → Result Error CircuitPermit × Breaker
  take_permit = acquire failure_threshold recovery_timeout

  -- `acquire` on a circuit that opened at the given time
  abbrev pub Gate : ℕ → Breaker → Option ℕ → Result Error CircuitPermit × Breaker → Type 0
  Gate now b none o = ⊥
  Gate now b (some since) o =
      ((now < since + recovery_timeout)
        × (o ≡ (err (circuit_open "route service circuit is open"), b)))
      ⊎ ((since + recovery_timeout ≤ now)
          × (b.probe_in_flight ≡ true)
          × (o ≡ (
            err (circuit_open "route service recovery probe is already running"),
            record b { state = half_open },
          )))
      ⊎ ((since + recovery_timeout ≤ now)
          × (b.probe_in_flight ≡ false)
          × (o ≡ (ok probe, record b { state = half_open; probe_in_flight = true })))

  -- With a positive failure threshold, after concurrent lookups `acquire` lets every call through a
  -- closed circuit; in the others, which have opened at some time, it refuses until the recovery
  -- timeout has passed since then, after that it hands out a probe, and refuses while one is in flight.
  pub acquire_follows_states :
      (now : ℕ) (b : Breaker) (n : ℕ)
      → 0 < failure_threshold
      → Run failure_threshold recovery_timeout b n
      → ((b.state ≡ closed) × (take_permit now b ≡ (ok normal, b)))
        ⊎ ((¬ (b.state ≡ closed)) × Gate now b b.opened_at (take_permit now b))
  unfolding acquire reserve
  acquire_follows_states now b n positive r =
      let h = (Run-IsSound failure_threshold recovery_timeout b n positive r).opened_once in
      ground (arith, h)

  abbrev pub failing : List ℕ → Breaker → Breaker
  failing [] b = b
  failing (t ∷ ts) b = failing ts (record_failure failure_threshold recovery_timeout normal t b)

  failing_below :
      (ts : List ℕ) (b : Breaker)
      → b.state ≡ closed
      → b.consecutive_failures + length ts < failure_threshold
      → ((failing ts b).state ≡ closed)
        × ((failing ts b).consecutive_failures ≡ b.consecutive_failures + length ts)
  unfolding record_failure open_now
  failing_below [] b h below = (h, omega arith)
  failing_below (t ∷ ts) b h below =
      ground
        (arith, failing_below ts (record b { consecutive_failures = b.consecutive_failures + 1 }))

  failing_reaches :
      (ts : List ℕ) (last : ℕ) (b : Breaker)
      → b.state ≡ closed
      → b.consecutive_failures + length ts + 1 ≡ failure_threshold
      → ((failing (ts ++ last ∷ []) b).state ≡ opened)
        × ((failing (ts ++ last ∷ []) b).opened_at ≡ some last)
  unfolding record_failure open_now
  failing_reaches [] last b h reached = ground arith
  failing_reaches (t ∷ ts) last b h reached = ground (
    arith,
    failing_reaches ts last (record b { consecutive_failures = b.consecutive_failures + 1 }),
  )

  -- After a success, the failures of calls without a probe leave the circuit closed up to the last
  -- before the threshold; that last one opens it at its time.
  pub opens_at_threshold :
      (b : Breaker) (permit : CircuitPermit) (earlier : List ℕ) (last : ℕ)
      → length earlier + 1 ≡ failure_threshold
      → let healthy = record_success failure_threshold recovery_timeout permit b in
        ((failing earlier healthy).state ≡ closed)
        × ((failing (earlier ++ last ∷ []) healthy).state ≡ opened)
        × ((failing (earlier ++ last ∷ []) healthy).opened_at ≡ some last)
  unfolding record_success
  opens_at_threshold b permit earlier last h =
      let healthy = record_success failure_threshold recovery_timeout permit b in
      let (opens, time) = failing_reaches earlier last healthy refl (omega arith) in
      ((failing_below earlier healthy refl (omega arith)).0, opens, time)

  abbrev pub Healed : Breaker → Type 0
  Healed b = (b.state ≡ closed) × (b.consecutive_failures ≡ 0) × (b.probe_in_flight ≡ false)

  abbrev pub Reopened : ℕ → Breaker → Type 0
  Reopened now b = (b.state ≡ opened) × (b.opened_at ≡ some now) × (b.probe_in_flight ≡ false)

  abbrev pub Probed : ℕ → Lookup ℕ → Breaker → Type 0
  Probed now (answered _) b = Healed b
  Probed now (refused status) b =
      ((status ≡ 400 ⊎ status ≡ 404 ⊎ status ≡ 422) × Healed b)
      ⊎ ((¬ (status ≡ 400)) × (¬ (status ≡ 404)) × (¬ (status ≡ 422)) × Reopened now b)
  Probed now (other _) b = (b.state ≡ half_open) × (b.probe_in_flight ≡ true)
  Probed now _ b = Reopened now b

  -- A lookup that asks a circuit which opened at least the recovery timeout ago, while no probe is in
  -- flight, is the probe: an answer or a refusal by a healthy provider closes the circuit with its
  -- failures forgotten, cancellation and every failure that `estimate` names open it again at that
  -- time, and each of these releases the probe; an exception that `estimate` does not name leaves the
  -- circuit half open with the probe still taken.
  pub probe_outcome :
      (asked_at answered_at since : ℕ) (lookup : Lookup ℕ) (b : Breaker)
      → ¬ (b.state ≡ closed)
      → b.opened_at ≡ some since
      → b.probe_in_flight ≡ false
      → since + recovery_timeout ≤ asked_at
      → Probed answered_at lookup
          (estimate failure_threshold recovery_timeout asked_at answered_at lookup b).1
  unfolding estimate acquire reserve settle record_success record_failure abandon open_now
  probe_outcome asked_at answered_at since lookup b h o p late = ground arith
