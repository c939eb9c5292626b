-- ===== src/RateLimiter/Buckets.antt =====
-- What the buckets of the rate limiter hold after its loops.
use innoprog_fastapi_deliver.Prelude.{
  ℕ, ◌≡◌, refl, Bool, false, List, [], ◌∷◌, ◌++◌, arith, String, text_eq, ◌==◌, any_of,
  if◌then◌else◌,
}
use innoprog_fastapi_deliver.Dict
use innoprog_fastapi_deliver.Dict.{get-put}
use innoprog_fastapi_deliver.RateLimiter.{
  Requests, bucket, expire, expire_all, consume, has_repeats,
}

bucket-put :
    (k j : String) (b : List ℕ) (s : Requests)
    → bucket j (Dict.put k b s) ≡ (if k == j then b else bucket j s)
bucket-put k j b s = ground (arith, get-put k j b s)

-- whether a key is among the keys of a check
abbrev pub has : List String → String → Bool
has keys j = any_of (λ k. k == j) keys

module _ (limit window : ℕ) where
  pub expire-expire :
      (now : ℕ) (b : List ℕ)
      → expire limit window now (expire limit window now b) ≡ expire limit window now b
  unfolding expire
  expire-expire now [] = refl
  expire-expire now (t ∷ b) = ground (arith, expire-expire now b)

  pub bucket-expire_all :
      (now : ℕ) (keys : List String) (j : String) (s : Requests)
      → bucket j (expire_all limit window now keys s)
        ≡ (if has keys j then expire limit window now (bucket j s) else bucket j s)
  unfolding expire_all
  bucket-expire_all now [] j s = refl
  bucket-expire_all now (k ∷ ks) j s = ground (
    arith,
    text_eq.same_iff k j,
    bucket-put k j (expire limit window now (bucket k s)) s,
    expire-expire now (bucket j s),
    bucket-expire_all now ks j (Dict.put k (expire limit window now (bucket k s)) s),
  )

  pub bucket-consume :
      (now : ℕ) (keys : List String) (j : String) (s : Requests)
      → has_repeats keys ≡ false
      → bucket j (consume limit window now keys s)
        ≡ (if has keys j then bucket j s ++ now ∷ [] else bucket j s)
  unfolding consume
  bucket-consume now [] j s fine = refl
  bucket-consume now (k ∷ ks) j s fine = ground (
    arith,
    text_eq.same_iff k j,
    fine,
    bucket-put k j (bucket k s ++ now ∷ []) s,
    bucket-consume now ks j (Dict.put k (bucket k s ++ now ∷ []) s),
  )
