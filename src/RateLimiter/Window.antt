-- ===== src/RateLimiter/Window.antt =====
-- The rate limiter against the log of the checks that it admitted.
use innoprog_fastapi_deliver.Prelude.{
  ℕ, ◌+◌, ◌≤◌, ◌≡◌, inl, inr, refl, sym, subst, false, List, [], ◌∷◌, ◌++◌, arith, String, text_eq,
  ltb, if◌then◌else◌, All, All-append, Bool-cases, length, append_nil,
}
use innoprog_fastapi_deliver.Dict
use innoprog_fastapi_deliver.Dict.{get-nothing}
use innoprog_fastapi_deliver.RateLimiter.{
  Requests, bucket, expire, expire_all, consume, has_repeats,
}
use innoprog_fastapi_deliver.RateLimiter.Buckets.{has, bucket-expire_all, bucket-consume}

-- the admitted checks, the oldest first
abbrev pub Log : Type 0
Log = List (List String × ℕ)

-- the times of the admitted checks of a key
abbrev pub times : String → Log → List ℕ
times k [] = []
times k ((keys, t) ∷ log) = let rest = times k log in if has keys k then t ∷ rest else rest

pub times-append :
    (k : String) (log : Log) (keys : List String) (t : ℕ)
    → times k (log ++ (keys, t) ∷ []) ≡ times k log ++ (if has keys k then t ∷ [] else [])
times-append k [] keys t = ground arith
times-append k ((keys', t') ∷ log) keys t = ground (arith, times-append k log keys t)

module _ (limit window : ℕ) where
  -- those within the window that ends now
  abbrev pub recent : ℕ → List ℕ → List ℕ
  recent now [] = []
  recent now (t ∷ ts) = let rest = recent now ts in if ltb now (t + window) then t ∷ rest else rest

  pub recent-append :
      (now : ℕ) (xs ys : List ℕ) → recent now (xs ++ ys) ≡ recent now xs ++ recent now ys
  recent-append now [] ys = refl
  recent-append now (x ∷ xs) ys = ground (arith, recent-append now xs ys)

  pub length-recent-le :
      (now later : ℕ) (ts : List ℕ)
      → now ≤ later
      → length (recent later ts) ≤ length (recent now ts)
  length-recent-le now later [] h = omega arith
  length-recent-le now later (t ∷ ts) h = ground (arith, length-recent-le now later ts h)

  expire-append :
      (now t : ℕ) (b : List ℕ)
      → All (λ x. x ≤ t) b
      → expire limit window now (b ++ t ∷ []) ≡ expire limit window now b ++ recent now (t ∷ [])
  unfolding expire
  expire-append now t [] h = ground arith
  expire-append now t (x ∷ b) h = ground (arith, expire-append now t b h.1)

  -- The bucket of each key reads, from now on, as the log does, and holds no time to come.
  pub record IsTracked (last : ℕ) (s : Requests) (log : Log) : Type 0 where
    pub reads :
        (k : String) (now : ℕ)
        → last ≤ now
        → expire limit window now (bucket k s) ≡ recent now (times k log)
    pub past : (k : String) → All (λ t. t ≤ last) (bucket k s)

  pub nothing-IsTracked : IsTracked 0 [] []
  unfolding expire Dict.get
  nothing-IsTracked = record { reads = λ k now soon. refl; past = λ k. tt }

  expire-later :
      (now later : ℕ) (b : List ℕ)
      → now ≤ later
      → expire limit window later (expire limit window now b) ≡ expire limit window later b
  unfolding expire
  expire-later now later [] h = refl
  expire-later now later (t ∷ b) h = ground (arith, expire-later now later b h)

  All-expire :
      (bound now : ℕ) (b : List ℕ)
      → All (λ t. t ≤ bound) b
      → All (λ t. t ≤ bound) (expire limit window now b)
  unfolding expire
  All-expire bound now [] h = tt
  All-expire bound now (t ∷ b) h = ground (arith, All-expire bound now b h.1, h)

  All-later : (a b : ℕ) (ts : List ℕ) → a ≤ b → All (λ t. t ≤ a) ts → All (λ t. t ≤ b) ts
  All-later a b [] h all = tt
  All-later a b (t ∷ ts) h all = (omega (arith, all.0), All-later a b ts h all.1)

  pub expire_all-IsTracked :
      (last now : ℕ) (keys : List String) (s : Requests) (log : Log)
      → last ≤ now
      → IsTracked last s log
      → IsTracked now (expire_all limit window now keys s) log
  expire_all-IsTracked last now keys s log order h = record {
    reads = λ k later soon. ground (
      arith,
      bucket-expire_all limit window now keys k s,
      h.reads k later,
      expire-later now later (bucket k s) soon,
    );
    past = λ k. elim (Bool-cases (has keys k)) [
      | inl in_keys ↦
          subst (All (λ t. t ≤ now))
            (sym (ground (arith, bucket-expire_all limit window now keys k s, in_keys)))
            (All-expire now now (bucket k s) (All-later last now (bucket k s) order (h.past k)))
      | inr not_in ↦
          subst (All (λ t. t ≤ now))
            (sym (ground (arith, bucket-expire_all limit window now keys k s, not_in)))
            (All-later last now (bucket k s) order (h.past k))
    ];
  }

  pub consume-IsTracked :
      (now : ℕ) (keys : List String) (s : Requests) (log : Log)
      → has_repeats keys ≡ false
      → IsTracked now s log
      → IsTracked now (consume limit window now keys s) (log ++ (keys, now) ∷ [])
  consume-IsTracked now keys s log fine h = record {
    reads = λ k later soon. ground (
      arith,
      bucket-consume limit window now keys k s fine,
      h.reads k later,
      times-append k log keys now,
      append_nil (times k log),
      recent-append later (times k log) (now ∷ []),
      expire-append later now (bucket k s) (h.past k),
    );
    past = λ k. elim (Bool-cases (has keys k)) [
      | inl in_keys ↦
          subst (All (λ t. t ≤ now))
            (sym (ground (arith, bucket-consume limit window now keys k s fine, in_keys)))
            (All-append (λ t. t ≤ now) (bucket k s) (now ∷ []) (h.past k) (omega arith, tt))
      | inr not_in ↦
          subst (All (λ t. t ≤ now))
            (sym (ground (arith, bucket-consume limit window now keys k s fine, not_in))) (h.past k)
    ];
  }
