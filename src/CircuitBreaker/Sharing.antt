-- ===== src/CircuitBreaker/Sharing.antt =====
-- Several lookups share one circuit breaker; their calls interleave in any order.
use innoprog_fastapi_deliver.Prelude.{
  ℕ, ◌+◌, ◌≤◌, ◌<◌, suc, ◌≡◌, refl, true, false, none, arith, Result, ok, err, if◌then◌else◌,
}
use innoprog_fastapi_deliver.Errors.{Error, assertion_error}
use innoprog_fastapi_deliver.CircuitBreaker.{
  Breaker, CircuitPermit, closed, fresh, open_now, reserve, acquire, record_success, record_failure,
  abandon, Lookup, settle,
}

abbrev pub normal : CircuitPermit
normal = record { half_open_probe = false }

abbrev pub probe : CircuitPermit
probe = record { half_open_probe = true }

-- 1 when a call handed out a probe
abbrev pub granted : Result Error CircuitPermit → ℕ
granted (ok permit) = if permit.half_open_probe then 1 else 0
granted (err e) = 0

module _ (failure_threshold recovery_timeout : ℕ) where
  -- The breaker and the number of lookups that hold a probe: a lookup acquires, and one that holds a
  -- permit settles it, whatever came between.
  pub data Run : Breaker → ℕ → Type 0 where
    starts : Run fresh 0
    acquires :
        (now : ℕ) (b : Breaker) (n : ℕ)
        → Run b n
        → Run
            (acquire failure_threshold recovery_timeout now b).1
            (n + granted (acquire failure_threshold recovery_timeout now b).0)
    settles_normal :
        (now : ℕ) (lookup : Lookup ℕ) (b : Breaker) (n : ℕ)
        → Run b n
        → Run (settle failure_threshold recovery_timeout normal now lookup b).1 n
    settles_probe :
        (now : ℕ) (lookup : Lookup ℕ) (b : Breaker) (n : ℕ)
        → Run b (suc n)
        → Run (settle failure_threshold recovery_timeout probe now lookup b).1 n

  pub record IsSound (b : Breaker) (n : ℕ) : Type 0 where
    pub probes : n ≤ (if b.probe_in_flight then 1 else 0)
    pub closed_below : b.state ≡ closed → b.consecutive_failures < failure_threshold
    pub opened_once : ¬ (b.state ≡ closed) → ¬ (b.opened_at ≡ none)

  acquire-IsSound :
      (now : ℕ) (b : Breaker) (n : ℕ)
      → IsSound b n
      → IsSound
          (acquire failure_threshold recovery_timeout now b).1
          (n + granted (acquire failure_threshold recovery_timeout now b).0)
  unfolding acquire reserve
  acquire-IsSound now b n h = record {
    probes = ground (arith, h.probes);
    closed_below = ground (arith, h.closed_below);
    opened_once = ground (arith, h.opened_once);
  }

  settle-normal-IsSound :
      (now : ℕ) (lookup : Lookup ℕ) (b : Breaker) (n : ℕ)
      → 0 < failure_threshold
      → IsSound b n
      → IsSound (settle failure_threshold recovery_timeout normal now lookup b).1 n
  unfolding settle record_success record_failure abandon open_now
  settle-normal-IsSound now lookup b n positive h = record {
    probes = ground (arith, h.probes);
    closed_below = ground (arith, h.closed_below);
    opened_once = ground (arith, h.opened_once);
  }

  settle-probe-IsSound :
      (now : ℕ) (lookup : Lookup ℕ) (b : Breaker) (n : ℕ)
      → 0 < failure_threshold
      → IsSound b (suc n)
      → IsSound (settle failure_threshold recovery_timeout probe now lookup b).1 n
  unfolding settle record_success record_failure abandon open_now
  settle-probe-IsSound now lookup b n positive h = record {
    probes = ground (arith, h.probes);
    closed_below = ground (arith, h.closed_below);
    opened_once = ground (arith, h.opened_once);
  }

  pub Run-IsSound : (b : Breaker) (n : ℕ) → 0 < failure_threshold → Run b n → IsSound b n
  Run-IsSound _ _ positive starts = record {
    probes = omega arith;
    closed_below = λ _. positive;
    opened_once = λ h. absurd (h refl);
  }
  Run-IsSound _ _ positive (acquires now b n r) =
      acquire-IsSound now b n (Run-IsSound b n positive r)
  Run-IsSound _ _ positive (settles_normal now lookup b n r) =
      settle-normal-IsSound now lookup b n positive (Run-IsSound b n positive r)
  Run-IsSound _ _ positive (settles_probe now lookup b n r) =
      settle-probe-IsSound now lookup b n positive (Run-IsSound b (suc n) positive r)

  -- With a positive failure threshold, in every state that concurrent lookups lead to at most one of
  -- them holds a probe, a closed circuit has seen fewer failures than the threshold since the last
  -- success, and the assertion of `acquire` does not fail.
  pub at_most_one_probe :
      (b : Breaker) (n : ℕ) (now : ℕ)
      → 0 < failure_threshold
      → Run b n
      → (n ≤ 1)
        × (b.state ≡ closed → b.consecutive_failures < failure_threshold)
        × ¬ ((acquire failure_threshold recovery_timeout now b).0 ≡ err assertion_error)
  unfolding acquire reserve
  at_most_one_probe b n now positive r =
      let h = Run-IsSound b n positive r in
      (ground (arith, h.probes), h.closed_below, λ e. ground (arith, h.opened_once, e))
