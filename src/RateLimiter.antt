-- ===== src/RateLimiter.antt =====
-- src/delivery_service/policy.py: `SlidingWindowRateLimiter`. Times and the window are microseconds;
-- `requests[0] <= current - window` is written without the subtraction. The lock makes a check atomic.
pub mod Buckets
pub mod Window
pub mod Decision
use innoprog_fastapi_deliver.Prelude.{
  ℕ, ◌+◌, ◌-◌, ◌/◌, max, String, Bool, true, false, not, ◌||◌, Option, none, some, List, [], ◌∷◌,
  ◌++◌, map, any_of, keep_if, length, text_eq, ◌==◌, leb, if◌then◌else◌, Exec, Result, ok, err,
  pure, lift, gets, modify, raise_if, ◌>>=◌, ◌>>◌,
}
use innoprog_fastapi_deliver.Dict
use innoprog_fastapi_deliver.Dict.{Dict}
use innoprog_fastapi_deliver.Errors.{Error, value_error, index_error}

pub record RateLimitDecision : Type 0 where
  pub allowed : Bool
  pub retry_after_seconds : ℕ

-- the attribute `_requests`, a `defaultdict(deque)`
abbrev pub Requests : Type 0
Requests = Dict String (List ℕ)

abbrev pub bucket : String → Requests → List ℕ
bucket key s = elim (Dict.get key s) [ none ↦ [] | some requests ↦ requests ]

-- `len(set(keys)) != len(keys)`
abbrev pub has_repeats : List String → Bool
has_repeats [] = false
has_repeats (k ∷ ks) = let rest = has_repeats ks in any_of (λ j. j == k) ks || rest

abbrev pub is_empty : {A : Type 0} → List A → Bool
is_empty [] = true
is_empty (_ ∷ _) = false

module _ (limit window : ℕ) where
  -- `while requests and requests[0] <= threshold: requests.popleft()`
  unfoldable pub expire : ℕ → List ℕ → List ℕ
  expire now [] = []
  expire now (t ∷ requests) =
      let rest = expire now requests in if leb (t + window) now then rest else t ∷ requests

  -- the loop over the buckets, which `defaultdict` makes when they are missing
  unfoldable pub expire_all : ℕ → List String → Requests → Requests
  expire_all now [] s = s
  expire_all now (k ∷ ks) s = expire_all now ks (Dict.put k (expire now (bucket k s)) s)

  -- `math.ceil((requests[0] + window - current).total_seconds())`
  abbrev pub wait : ℕ → List ℕ → Result Error ℕ
  wait now [] = err index_error
  wait now (t ∷ requests) = ok ((t + window - now + 999999) / 1000000)

  abbrev pub longer : Result Error ℕ → Result Error ℕ → Result Error ℕ
  longer (ok a) (ok b) = ok (max a b)
  longer (err e) b = err e
  longer (ok a) (err e) = err e

  unfoldable pub longest_wait : ℕ → List (List ℕ) → Result Error ℕ
  longest_wait now [] = ok 0
  longest_wait now (b ∷ buckets) = longer (wait now b) (longest_wait now buckets)

  unfoldable pub consume : ℕ → List String → Requests → Requests
  consume now [] s = s
  consume now (k ∷ ks) s = consume now ks (Dict.put k (bucket k s ++ now ∷ []) s)

  abbrev pub buckets_of : List String → Requests → List (List ℕ)
  buckets_of [] s = []
  buckets_of (k ∷ ks) s = bucket k s ∷ buckets_of ks s

  abbrev pub decide : ℕ → List String → List (List ℕ) → Exec Requests Error RateLimitDecision
  decide now keys [] = do
    modify (consume now keys)
    pure (record { allowed = true; retry_after_seconds = 0 })
  decide now keys (b ∷ blocked) = do
    retry_after ← lift (longest_wait now (b ∷ blocked))
    pure (record { allowed = false; retry_after_seconds = max 1 retry_after })

  unfoldable pub check_many : List String → ℕ → Exec Requests Error RateLimitDecision
  check_many keys now = do
    raise_if (is_empty keys || has_repeats keys)
        (value_error "rate-limit keys must be non-empty and unique")
    modify (expire_all now keys)
    buckets ← gets (buckets_of keys)
    decide now keys (keep_if (λ b. leb limit (length b)) buckets)

  unfoldable pub check : String → ℕ → Exec Requests Error RateLimitDecision
  check key now = check_many (key ∷ []) now
