-- ===== src/RateLimiter/Decision.antt =====
-- What the rate limiter answers, by the log of the checks that it admitted.
use innoprog_fastapi_deliver.Prelude.{
  ℕ, ◌+◌, ◌-◌, ◌/◌, ◌≤◌, ◌<◌, max, ◌≡◌, ◌⊎◌, inl, inr, refl, sym, Bool, true, false, not, List, [],
  ◌∷◌, ◌++◌, arith, String, text_eq, ◌&&◌, leb, ltb, if◌then◌else◌, All, All-imply, Bool-cases,
  length, length-append, keep_if, append_nil, Result, ok, err,
}
use innoprog_fastapi_deliver.Errors.{Error}
use innoprog_fastapi_deliver.RateLimiter.{
  Requests, RateLimitDecision, bucket, expire_all, consume, has_repeats, is_empty, check_many,
  buckets_of, longest_wait,
}
use innoprog_fastapi_deliver.RateLimiter.Buckets.{has, bucket-expire_all}
use innoprog_fastapi_deliver.RateLimiter.Window.{
  Log, times, times-append, recent, recent-append, length-recent-le, IsTracked,
  expire_all-IsTracked, consume-IsTracked, nothing-IsTracked,
}

has_self : (ks : List String) → All (λ k. has ks k ≡ true) ks
has_self [] = tt
has_self (k ∷ ks) = (
  ground (arith, text_eq.same_iff k k),
  All-imply (λ j. has ks j ≡ true) (λ j. has (k ∷ ks) j ≡ true) (λ j h. ground (arith, h)) ks
      (has_self ks),
)

module _ (limit window : ℕ) where
  -- whether each of the keys has a slot left in the window that ends now
  abbrev pub has_room : ℕ → Log → List String → Bool
  has_room now log [] = true
  has_room now log (k ∷ ks) =
      ltb (length (recent limit window now (times k log))) limit && has_room now log ks

  abbrev blocked : List (List ℕ) → List (List ℕ)
  blocked = keep_if (λ b. leb limit (length b))

  blocked-room :
      (now : ℕ) (log : Log) (s : Requests) (ks : List String)
      → All (λ k. bucket k s ≡ recent limit window now (times k log)) ks
      → is_empty (blocked (buckets_of limit window ks s)) ≡ has_room now log ks
  blocked-room now log s [] h = refl
  blocked-room now log s (k ∷ ks) h = ground (arith, h.0, blocked-room now log s ks h.1)

  -- with a positive limit a blocked bucket has a first entry
  waits :
      (now : ℕ) (bs : List (List ℕ))
      → 0 < limit
      → (w : ℕ) × (longest_wait limit window now (blocked bs) ≡ ok w)
  unfolding longest_wait
  waits now [] positive = (0, refl)
  waits now ([] ∷ bs) positive = ground (arith, waits now bs positive)
  waits now ((t ∷ b) ∷ bs) positive = elim (Bool-cases (leb limit (length (t ∷ b)))) [
    | inl full ↦
        let (w, e) = waits now bs positive in
        (max ((t + window - now + 999999) / 1000000) w, ground (arith, full, e))
    | inr free ↦ let (w, e) = waits now bs positive in (w, ground (arith, free, e))
  ]

  module _ (last now : ℕ) (keys : List String) (s : Requests) (log : Log) (order : last ≤ now)
      (h : IsTracked limit window last s log) where
    swept : Requests
    swept = expire_all limit window now keys s

    reads_log : All (λ k. bucket k swept ≡ recent limit window now (times k log)) keys
    unfolding swept
    reads_log =
        All-imply (λ k. has keys k ≡ true) _
          (λ k in_keys.
            ground
              (arith, in_keys, bucket-expire_all limit window now keys k s, h.reads k now order))
          keys (has_self keys)

    -- The check on both branches, by the log.
    check_lem :
        0 < limit
        → is_empty keys ≡ false
        → has_repeats keys ≡ false
        → ((has_room now log keys ≡ true)
            × (check_many limit window keys now s ≡ (
              ok (record { allowed = true; retry_after_seconds = 0 }),
              consume limit window now keys swept,
            )))
          ⊎ ((has_room now log keys ≡ false)
              × (w : ℕ) × (check_many limit window keys now s
                  ≡ (ok (record { allowed = false; retry_after_seconds = max 1 w }), swept)))
    unfolding check_many swept
    check_lem positive some_key fine =
        let swept_buckets : List (List ℕ) =
          buckets_of limit window keys (expire_all limit window now keys s) in
        let room = blocked-room now log (expire_all limit window now keys s) keys reads_log in
        let (w, waited) = waits now swept_buckets positive in
        elim (Bool-cases (has_room now log keys)) [
          | inl free ↦ inl (free, ground (arith, some_key, fine, room, free))
          | inr full ↦ inr (full, w, ground (arith, some_key, fine, room, full, waited))
        ]

  -- the log after a check
  abbrev pub logged : Result Error RateLimitDecision → List String → ℕ → Log → Log
  logged (ok d) keys now log = if d.allowed then log ++ (keys, now) ∷ [] else log
  logged (err e) keys now log = log

  -- Checks of distinct keys, one after the other while time does not go back: the requests that the
  -- limiter keeps, the log of the admitted checks and the time of the last check.
  pub data Run : Requests → Log → ℕ → Type 0 where
    starts : Run [] [] 0
    checks :
        (keys : List String) (now : ℕ) (s : Requests) (log : Log) (last : ℕ)
        → Run s log last
        → last ≤ now
        → is_empty keys ≡ false
        → has_repeats keys ≡ false
        → Run
            (check_many limit window keys now s).1
            (logged (check_many limit window keys now s).0 keys now log)
            now

  -- The log keeps to the limit.
  abbrev pub IsWithin : ℕ → Log → Type 0
  IsWithin now log = (k : String) → length (recent limit window now (times k log)) ≤ limit

  room_lem :
      (now : ℕ) (log : Log) (ks : List String) (k : String)
      → has_room now log ks ≡ true
      → has ks k ≡ true
      → length (recent limit window now (times k log)) < limit
  room_lem now log [] k room in_keys = absurd (ground (arith, in_keys))
  room_lem now log (j ∷ ks) k room in_keys =
      ground (arith, room, in_keys, text_eq.same_iff j k, room_lem now log ks k)

  admitted-IsWithin :
      (last now : ℕ) (keys : List String) (log : Log)
      → last ≤ now
      → has_room now log keys ≡ true
      → IsWithin last log
      → IsWithin now (log ++ (keys, now) ∷ [])
  admitted-IsWithin last now keys log order room within k = ground (
    arith,
    times-append k log keys now,
    recent-append limit window now (times k log) (now ∷ []),
    recent-append limit window now (times k log) [],
    room_lem now log keys k room,
    within k,
    length-recent-le limit window last now (times k log) order,
    length-append (recent limit window now (times k log)) (recent limit window now (now ∷ [])),
    append_nil (times k log),
  )

  Run-IsTracked :
      (s : Requests) (log : Log) (last : ℕ)
      → 0 < limit
      → Run s log last
      → IsTracked limit window last s log × IsWithin last log
  unfolding swept
  Run-IsTracked _ _ _ positive starts = (nothing-IsTracked limit window, λ k. omega arith)
  Run-IsTracked _ _ _ positive (checks keys now s log last r order some_key fine) =
      let (tracked, within) = Run-IsTracked s log last positive r in
      let swept_tracked = expire_all-IsTracked limit window last now keys s log order tracked in
      elim (check_lem last now keys s log order tracked positive some_key fine) [
        | inl (room, admitted) ↦ rw admitted (
          consume-IsTracked limit window now keys (expire_all limit window now keys s) log fine
              swept_tracked,
          admitted-IsWithin last now keys log order room within,
        )
        | inr (full, w, refused) ↦ rw refused (
          swept_tracked,
          λ k. omega (arith, within k, length-recent-le limit window last now (times k log) order),
        )
      ]

  -- With a positive limit, after any checks of distinct keys in the order of time, of the checks of a
  -- key that were admitted no more than the limit lie within the window that ends with the last check.
  pub window_is_bounded :
      (s : Requests) (log : Log) (last : ℕ) (k : String)
      → 0 < limit
      → Run s log last
      → length (recent limit window last (times k log)) ≤ limit
  window_is_bounded s log last k positive r = (Run-IsTracked s log last positive r).1 k

  -- With a positive limit, after such checks, a check of distinct keys is admitted exactly when each of
  -- them has a slot left in the window that ends now; otherwise it is refused for at least a second.
  pub check_follows_log :
      (s : Requests) (log : Log) (last : ℕ) (keys : List String) (now : ℕ)
      → 0 < limit
      → Run s log last
      → last ≤ now
      → is_empty keys ≡ false
      → has_repeats keys ≡ false
      → (d : RateLimitDecision) × ((check_many limit window keys now s).0 ≡ ok d)
        × (d.allowed ≡ has_room now log keys)
        × (ltb 0 d.retry_after_seconds ≡ not d.allowed)
  check_follows_log s log last keys now positive r order some_key fine =
      elim (check_lem last now keys s log order (Run-IsTracked s log last positive r).0 positive
        some_key fine) [
          | inl (room, admitted) ↦ (
            record { allowed = true; retry_after_seconds = 0 },
            ground (arith, admitted),
            sym room,
            refl,
          )
          | inr (full, w, refused) ↦ (
            record { allowed = false; retry_after_seconds = max 1 w },
            ground (arith, refused),
            sym full,
            ground arith,
          )
        ]
