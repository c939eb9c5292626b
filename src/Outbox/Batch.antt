-- ===== src/Outbox/Batch.antt =====
-- The batch of a relay: pending rows of the table, each once.
use innoprog_fastapi_deliver.Prelude.{
  ℕ, zero, suc, ◌≡◌, refl, min, true, false, none, some, [], ◌∷◌, arith, inl, inr, number_eq, ◌==◌,
  All, All-of_Among, Among, Among-take, Among-keep_if, take, length, keep_if, List, sort_by,
  sort_insert, Among-sort_by, length-sort_by, if◌then◌else◌, Bool,
}
use innoprog_fastapi_deliver.Dict
use innoprog_fastapi_deliver.Dict.{Dict}
use innoprog_fastapi_deliver.Dict.Entries.{IsDistinct}
use innoprog_fastapi_deliver.Outbox.{OutboxRow, is_pending, is_selected, by_age, select_pending}

-- Each row of a batch is pending in the table.
abbrev pub IsReady : Dict ℕ OutboxRow → Dict ℕ OutboxRow → Type 0
IsReady outbox rows = All (λ e. (Dict.get e.0 outbox ≡ some e.1) × (is_pending e.1 ≡ true)) rows

module _ {V : Type 0} where
  get-of_entry : (d : Dict ℕ V) (e : ℕ × V) → IsDistinct d → Among e d → Dict.get e.0 d ≡ some e.1
  unfolding Dict.get
  get-of_entry [] e h m = absurd m
  get-of_entry ((j, w) ∷ d) e h (inl p) = ground (arith, p, number_eq.same_iff j e.0)
  get-of_entry ((j, w) ∷ d) e h (inr m) =
      ground (arith, h, number_eq.same_iff j e.0, get-of_entry d e h.1 m)

  get-keep_if-none :
      (p : ℕ × V → Bool) (d : Dict ℕ V) (k : ℕ)
      → Dict.get k d ≡ none
      → Dict.get k (keep_if p d) ≡ none
  unfolding Dict.get
  get-keep_if-none p [] k h = h
  get-keep_if-none p ((j, w) ∷ d) k h = ground (arith, h, get-keep_if-none p d k)

  keep_if-IsDistinct : (p : ℕ × V → Bool) (d : Dict ℕ V) → IsDistinct d → IsDistinct (keep_if p d)
  keep_if-IsDistinct p [] h = h
  keep_if-IsDistinct p ((j, w) ∷ d) h =
      ground (arith, get-keep_if-none p d j h.0, keep_if-IsDistinct p d h.1)

  get-take-none :
      (n : ℕ) (d : Dict ℕ V) (k : ℕ) → Dict.get k d ≡ none → Dict.get k (take n d) ≡ none
  unfolding Dict.get
  get-take-none zero d k h = refl
  get-take-none (suc n) [] k h = h
  get-take-none (suc n) ((j, w) ∷ d) k h = ground (arith, h, get-take-none n d k)

  take-IsDistinct : (n : ℕ) (d : Dict ℕ V) → IsDistinct d → IsDistinct (take n d)
  take-IsDistinct zero d h = tt
  take-IsDistinct (suc n) [] h = h
  take-IsDistinct (suc n) ((j, w) ∷ d) h = (get-take-none n d j h.0, take-IsDistinct n d h.1)

module _ {V : Type 0} (before : ℕ × V → ℕ × V → Bool) where
  get-sort_insert-none :
      (x : ℕ × V) (d : Dict ℕ V) (k : ℕ)
      → (x.0 == k) ≡ false
      → Dict.get k d ≡ none
      → Dict.get k (sort_insert before x d) ≡ none
  unfolding Dict.get sort_insert
  get-sort_insert-none x [] k other h = ground (arith, other, h)
  get-sort_insert-none x ((j, w) ∷ d) k other h =
      ground (arith, other, h, get-sort_insert-none x d k)

  sort_insert-IsDistinct :
      (x : ℕ × V) (d : Dict ℕ V)
      → Dict.get x.0 d ≡ none
      → IsDistinct d
      → IsDistinct (sort_insert before x d)
  unfolding Dict.get sort_insert
  sort_insert-IsDistinct x [] h g = ground arith
  sort_insert-IsDistinct x ((j, w) ∷ d) h g = ground (
    arith,
    h,
    g,
    number_eq.same_iff j x.0,
    number_eq.same_iff x.0 j,
    get-sort_insert-none x d j,
    sort_insert-IsDistinct x d,
  )

  get-sort_by-none :
      (d : Dict ℕ V) (k : ℕ) → Dict.get k d ≡ none → Dict.get k (sort_by before d) ≡ none
  unfolding Dict.get sort_by
  get-sort_by-none [] k h = h
  get-sort_by-none ((j, w) ∷ d) k h =
      ground (arith, h, get-sort_by-none d k, get-sort_insert-none (j, w) (sort_by before d) k)

  sort_by-IsDistinct : (d : Dict ℕ V) → IsDistinct d → IsDistinct (sort_by before d)
  unfolding sort_by
  sort_by-IsDistinct [] h = h
  sort_by-IsDistinct ((j, w) ∷ d) h =
      sort_insert-IsDistinct (j, w) (sort_by before d) (get-sort_by-none d j h.0)
        (sort_by-IsDistinct d h.1)

length-take-min : {A : Type 0} (n : ℕ) (xs : List A) → length (take n xs) ≡ min n (length xs)
length-take-min zero xs = omega arith
length-take-min (suc n) [] = omega arith
length-take-min (suc n) (x ∷ xs) = omega (arith, length-take-min n xs)

-- how many rows still wait
abbrev pub backlog : Dict ℕ OutboxRow → ℕ
backlog [] = 0
backlog ((i, row) ∷ outbox) = let rest = backlog outbox in if is_pending row then suc rest else rest

length-selected :
    (outbox : Dict ℕ OutboxRow) → length (keep_if (is_selected []) outbox) ≡ backlog outbox
length-selected [] = refl
length-selected ((i, row) ∷ outbox) = ground (arith, length-selected outbox)

-- What an unlocked selection gives.
pub select_pending_lem :
    (batch_size : ℕ) (outbox : Dict ℕ OutboxRow)
    → IsDistinct outbox
    → IsReady outbox (select_pending [] batch_size outbox)
      × IsDistinct (select_pending [] batch_size outbox)
      × (length (select_pending [] batch_size outbox) ≡ min batch_size (backlog outbox))
unfolding select_pending
select_pending_lem batch_size outbox distinct =
    let kept : Dict ℕ OutboxRow = keep_if (is_selected []) outbox in
    (
      All-of_Among (λ e. (Dict.get e.0 outbox ≡ some e.1) × (is_pending e.1 ≡ true))
          (take batch_size (sort_by by_age kept))
          (λ e m.
            let (among, selected) =
              (Among-keep_if (is_selected []) outbox e).0 (
                (Among-sort_by by_age kept e).0
                  (Among-take batch_size (sort_by by_age kept) e m)) in
            (get-of_entry outbox e distinct among, ground (arith, selected))),
      take-IsDistinct batch_size (sort_by by_age kept)
          (sort_by-IsDistinct by_age kept (keep_if-IsDistinct (is_selected []) outbox distinct)),
      omega (
        arith,
        length-take-min batch_size (sort_by by_age kept),
        length-sort_by by_age kept,
        length-selected outbox,
      ),
    )
