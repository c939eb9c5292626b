-- ===== src/Dict/Entries.antt =====
-- The entries of a dictionary: distinct keys, and what iterating over it meets.
use innoprog_fastapi_deliver.Prelude.{
  ◌≡◌, none, some, [], ◌∷◌, inl, inr, sym, subst, HasEquality, ◌==◌, arith, All, Among, Bool-cases,
}
use innoprog_fastapi_deliver.Dict.{Dict, get, put, values, get-put}

module _ {ℓ κ} {K : Type ℓ} {V : Type κ} ⦃e : HasEquality K⦄ where
  -- No key stands twice.
  abbrev pub IsDistinct : Dict K V → Type κ
  IsDistinct [] = Unit
  IsDistinct ((k, v) ∷ d) = (get k d ≡ none) × IsDistinct d

  pub put-IsDistinct : (k : K) (v : V) (d : Dict K V) → IsDistinct d → IsDistinct (put k v d)
  unfolding put get
  put-IsDistinct k v [] h = ground arith
  put-IsDistinct k v ((j, w) ∷ d) h =
      ground (arith, put-IsDistinct k v d h.1, get-put k j v d, e.same_iff k j, e.same_iff j k)

  pub All-put {μ} :
      (P : K × V → Type μ) (k : K) (v : V) (d : Dict K V) → P (k, v) → All P d → All P (put k v d)
  unfolding put
  All-put P k v [] p h = (p, tt)
  All-put P k v ((j, w) ∷ d) p h = elim (Bool-cases (j == k)) [
    | inl same ↦ rw same ((subst (λ x. P (x, v)) (sym ((e.same_iff j k).0 same)) p), h.1)
    | inr other ↦ rw other (h.0, All-put P k v d p h.1)
  ]

module _ {K V : Type 0} ⦃e : HasEquality K⦄ where
  -- Each value that iteration meets is stored under its key.
  pub get-of_Among :
      (d : Dict K V) (v : V) → IsDistinct d → Among v (values d) → (k : K) × (get k d ≡ some v)
  unfolding get
  get-of_Among [] v h m = absurd m
  get-of_Among ((j, w) ∷ d) v h (inl p) = (j, ground (arith, e.same_iff j j))
  get-of_Among ((j, w) ∷ d) v h (inr m) =
      let (k, found) = get-of_Among d v h.1 m in (k, ground (arith, e.same_iff j k))

  pub Among-of_get : (k : K) (d : Dict K V) (v : V) → get k d ≡ some v → Among v (values d)
  unfolding get
  Among-of_get k [] v h = cc
  Among-of_get k ((j, w) ∷ d) v h = ground (arith, Among-of_get k d v)
