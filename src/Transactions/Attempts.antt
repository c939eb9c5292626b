-- ===== src/Transactions/Attempts.antt =====
-- What a use case that is retried has done when it ends.
use innoprog_fastapi_deliver.Prelude.{
  ℕ, zero, suc, ◌+◌, ◌*◌, ◌^◌, ◌≤◌, ◌<◌, ◌≡◌, ◌⊎◌, inl, inr, refl, sym, ap, subst, true, false,
  number_eq, arith, Result, ok, err, Bool-cases, Result-cases,
}
use innoprog_fastapi_deliver.Errors.{Error}
use innoprog_fastapi_deliver.Transactions.{Setting, is_retryable, attempts_from, run_serializable}

module _ {D A : Type 0} (w : Setting D A) where
  -- What others leave of the data after some pauses, at most so many.
  pub data Paused (s : D) : ℕ → D → Type 0 where
    at_once : Paused s 0 s
    pause : (n delay : ℕ) (t : D) → Paused s n t → Paused s (suc n) (w.sleep delay t)

  -- The use case took effect as a whole on one of these states, or not at all.
  pub data Ended (s : D) (attempts : ℕ) : Result Error A × D → Type 0 where
    committed :
        (n : ℕ) (t u : D) (a : A)
        → n < attempts
        → Paused s n t
        → w.operation t ≡ (ok a, u)
        → Ended s attempts (ok a, u)
    gave_up :
        (n : ℕ) (t : D) (e : Error)
        → n < attempts
        → Paused s n t
        → (w.operation t).0 ≡ err e
        → (is_retryable w e ≡ false) ⊎ (attempts ≡ suc n)
        → Ended s attempts (err e, t)

  commits :
      (left attempt : ℕ) (t : D) (a : A)
      → (w.operation t).0 ≡ ok a
      → (ok a, (w.operation t).1) ≡ attempts_from w attempt (suc left) t
  unfolding attempts_from
  commits left attempt t a done = ground (arith, done)

  pair_of_parts :
      (t : D) (a : A) → (w.operation t).0 ≡ ok a → w.operation t ≡ (ok a, (w.operation t).1)
  pair_of_parts t a done = ap (λ r. (r, (w.operation t).1)) done

  stops :
      (left attempt : ℕ) (t : D) (e : Error)
      → (w.operation t).0 ≡ err e
      → (is_retryable w e ≡ false) ⊎ (left ≡ 0)
      → attempts_from w attempt (suc left) t ≡ (err e, t)
  unfolding attempts_from
  stops left attempt t e raised final = ground (arith, raised, final)

  goes_on :
      (left attempt : ℕ) (t : D) (e : Error)
      → (w.operation t).0 ≡ err e
      → is_retryable w e ≡ true
      → attempts_from w attempt (suc (suc left)) t
        ≡ attempts_from w
            (suc attempt)
            (suc left)
            (w.sleep (w.base_delay * 2 ^ attempt + w.jitter attempt) t)
  unfolding attempts_from
  goes_on left attempt t e raised again = ground (arith, raised, again)

  -- One attempt, by how it goes on after a conflict.
  attempt-Ended :
      (left attempt attempts : ℕ) (s t : D)
      → attempt + suc left ≡ attempts
      → Paused s attempt t
      → ((e : Error)
          → (w.operation t).0 ≡ err e
          → is_retryable w e ≡ true
          → Ended s attempts (attempts_from w attempt (suc left) t))
      → Ended s attempts (attempts_from w attempt (suc left) t)
  attempt-Ended left attempt attempts s t total paused conflict =
      elim (Result-cases (w.operation t).0) [
        | inl (a, done) ↦ subst (Ended s attempts) (commits left attempt t a done) (
            committed attempt t (w.operation t).1 a (omega (arith, total)) paused
              (pair_of_parts t a done))
        | inr (e, raised) ↦ elim (Bool-cases (is_retryable w e)) [
          | inl again ↦ conflict e raised again
          | inr final ↦
              subst (Ended s attempts) (sym (stops left attempt t e raised (inl final)))
                (gave_up attempt t e (omega (arith, total)) paused raised (inl final))
        ]
      ]

  attempts_from-Ended :
      (left attempt attempts : ℕ) (s t : D)
      → attempt + suc left ≡ attempts
      → Paused s attempt t
      → Ended s attempts (attempts_from w attempt (suc left) t)
  attempts_from-Ended zero attempt attempts s t total paused =
      attempt-Ended 0 attempt attempts s t total paused (λ e raised again.
        subst (Ended s attempts) (sym (stops 0 attempt t e raised (inr refl)))
          (gave_up attempt t e (omega (arith, total)) paused raised (inr (omega (arith, total)))))
  attempts_from-Ended (suc left) attempt attempts s t total paused =
      attempt-Ended (suc left) attempt attempts s t total paused (λ e raised again.
        subst (Ended s attempts) (sym (goes_on left attempt t e raised again)) (
          attempts_from-Ended left (suc attempt) attempts s
            (w.sleep (w.base_delay * 2 ^ attempt + w.jitter attempt) t) (omega (arith, total))
            (pause attempt (w.base_delay * 2 ^ attempt + w.jitter attempt) t paused)))

  starts : (left : ℕ) (s : D) → run_serializable w (suc left) s ≡ attempts_from w 0 (suc left) s
  unfolding run_serializable
  starts left s = ground arith

  -- With at least one attempt, a retried use case either committed once, on the data as others left
  -- them after fewer pauses than attempts, or left nothing of its own: then it raises the exception of
  -- its last run, which is no conflict or that of the last attempt.
  pub run_serializable-Ended :
      (attempts : ℕ) (s : D) → 1 ≤ attempts → Ended s attempts (run_serializable w attempts s)
  run_serializable-Ended zero s some_attempt = absurd (omega (arith, some_attempt))
  run_serializable-Ended (suc left) s some_attempt =
      subst (Ended s (suc left)) (sym (starts left s))
        (attempts_from-Ended left 0 (suc left) s s (omega arith) at_once)
