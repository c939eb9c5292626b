-- ===== src/Prelude/Lists.antt =====
-- Lists measured by native numbers, slices, filters and predicates over all the items.
use Prim.Native.Nat.{ℕ, zero, suc, ◌+◌, ◌≤◌}
use mathlib.Core.Path.{◌≡◌, refl, sym, subst}
use mathlib.Core.Bool.{Bool, true, false}
use mathlib.Core.Logic.{◌⊎◌, inl, inr, ◌↔◌}
use mathlib.Core.List.{List, [], ◌∷◌, ◌++◌}
use native.Mathlib.Omega.{arith}
use innoprog_fastapi_deliver.Prelude.Tests.{Bool-cases, if◌then◌else◌}

module _ {ℓ} {A : Type ℓ} where
  abbrev pub length : List A → ℕ
  length [] = 0
  length (x ∷ xs) = suc (length xs)

  abbrev pub take : ℕ → List A → List A
  take zero xs = []
  take (suc n) [] = []
  take (suc n) (x ∷ xs) = x ∷ take n xs

  abbrev pub drop : ℕ → List A → List A
  drop zero xs = xs
  drop (suc n) [] = []
  drop (suc n) (x ∷ xs) = drop n xs

  -- `[x for x in xs if p(x)]`
  abbrev pub keep_if : (A → Bool) → List A → List A
  keep_if p [] = []
  keep_if p (x ∷ xs) = let rest = keep_if p xs in if p x then x ∷ rest else rest

  -- `any(p(x) for x in xs)`
  abbrev pub any_of : (A → Bool) → List A → Bool
  any_of p [] = false
  any_of p (x ∷ xs) = let rest = any_of p xs in if p x then true else rest

  abbrev pub All {κ} : (A → Type κ) → List A → Type κ
  All P [] = Unit
  All P (x ∷ xs) = P x × All P xs

module _ {ℓ} {A : Type ℓ} where
  pub length-append : (xs ys : List A) → length (xs ++ ys) ≡ length xs + length ys
  length-append [] ys = omega arith
  length-append (x ∷ xs) ys = omega (arith, length-append xs ys)

  pub append_nil : (xs : List A) → xs ++ [] ≡ xs
  append_nil [] = refl
  append_nil (x ∷ xs) = rw (append_nil xs)

  pub append_assoc : (xs ys zs : List A) → (xs ++ ys) ++ zs ≡ xs ++ (ys ++ zs)
  append_assoc [] ys zs = refl
  append_assoc (x ∷ xs) ys zs = rw (append_assoc xs ys zs)

  pub keep_if-append :
      (p : A → Bool) (xs ys : List A) → keep_if p (xs ++ ys) ≡ keep_if p xs ++ keep_if p ys
  keep_if-append p [] ys = refl
  keep_if-append p (x ∷ xs) ys = ground (arith, keep_if-append p xs ys)

  pub keep_if-same :
      (p q : A → Bool) → ((x : A) → p x ≡ q x) → (xs : List A) → keep_if p xs ≡ keep_if q xs
  keep_if-same p q h [] = refl
  keep_if-same p q h (x ∷ xs) = ground (arith, h x, keep_if-same p q h xs)

  pub length-keep_if : (p : A → Bool) (xs : List A) → length (keep_if p xs) ≤ length xs
  length-keep_if p [] = omega arith
  length-keep_if p (x ∷ xs) = ground (arith, length-keep_if p xs)

  pub length-take : (n : ℕ) (xs : List A) → length (take n xs) ≤ n
  length-take zero xs = omega arith
  length-take (suc n) [] = omega arith
  length-take (suc n) (x ∷ xs) = omega (arith, length-take n xs)

module _ {ℓ κ} {A : Type ℓ} (P : A → Type κ) where
  pub All-append : (xs ys : List A) → All P xs → All P ys → All P (xs ++ ys)
  All-append [] ys hx hy = hy
  All-append (x ∷ xs) ys hx hy = (hx.0, All-append xs ys hx.1 hy)

module _ {ℓ κ} {A : Type ℓ} (P : A → Type κ) where
  pub All-take : (n : ℕ) (xs : List A) → All P xs → All P (take n xs)
  All-take zero xs h = tt
  All-take (suc n) [] h = tt
  All-take (suc n) (x ∷ xs) h = (h.0, All-take n xs h.1)

  pub All-drop : (n : ℕ) (xs : List A) → All P xs → All P (drop n xs)
  All-drop zero xs h = h
  All-drop (suc n) [] h = tt
  All-drop (suc n) (x ∷ xs) h = All-drop n xs h.1

module _ {ℓ κ μ} {A : Type ℓ} (P : A → Type κ) (Q : A → Type μ) where
  pub All-imply : ((a : A) → P a → Q a) → (xs : List A) → All P xs → All Q xs
  All-imply h [] all = tt
  All-imply h (x ∷ xs) all = (h x all.0, All-imply h xs all.1)

-- `a in xs`. It computes to sums, which the tactics read.
module _ {A : Type 0} where
  abbrev pub Among : A → List A → Type 0
  Among a [] = ⊥
  Among a (x ∷ xs) = (a ≡ x) ⊎ Among a xs

module _ {A : Type 0} where
  take_all : (n : ℕ) (xs : List A) → length xs ≤ n → take n xs ≡ xs
  take_all zero [] h = refl
  take_all zero (x ∷ xs) h = absurd (omega arith)
  take_all (suc n) [] h = refl
  take_all (suc n) (x ∷ xs) h = rw (take_all n xs (omega arith))

  pub first_page : (n k : ℕ) (xs : List A) → k ≡ 0 → length xs ≤ n → take n (drop k xs) ≡ xs
  first_page n k xs first room = rw first (take_all n xs room)

  pub Among-take : (n : ℕ) (xs : List A) (a : A) → Among a (take n xs) → Among a xs
  Among-take zero xs a m = absurd m
  Among-take (suc n) [] a m = m
  Among-take (suc n) (x ∷ xs) a (inl e) = inl e
  Among-take (suc n) (x ∷ xs) a (inr m) = inr (Among-take n xs a m)

  pub Among-drop : (n : ℕ) (xs : List A) (a : A) → Among a (drop n xs) → Among a xs
  Among-drop zero xs a m = m
  Among-drop (suc n) [] a m = m
  Among-drop (suc n) (x ∷ xs) a m = inr (Among-drop n xs a m)

  pub Among-keep_if :
      (p : A → Bool) (xs : List A) (a : A) → Among a (keep_if p xs) ↔ (Among a xs × (p a ≡ true))
  Among-keep_if p [] a = ((λ m. absurd m), λ m. absurd m.0)
  Among-keep_if p (x ∷ xs) a = ground (arith, Among-keep_if p xs a)

  pub any_of-found :
      (p : A → Bool) (xs : List A) → any_of p xs ≡ true → (a : A) × Among a xs × (p a ≡ true)
  any_of-found p [] h = absurd (ground (arith, h))
  any_of-found p (x ∷ xs) h = elim (Bool-cases (p x)) [
    | inl holds ↦ (x, inl refl, holds)
    | inr fails ↦
        let (a, m, holds) = any_of-found p xs (ground (arith, h, fails)) in (a, inr m, holds)
  ]

  pub any_of-Among :
      (p : A → Bool) (xs : List A) (a : A) → Among a xs → p a ≡ true → any_of p xs ≡ true
  any_of-Among p [] a m h = absurd m
  any_of-Among p (x ∷ xs) a m h = ground (arith, any_of-Among p xs a)

module _ {κ} {A : Type 0} (P : A → Type κ) where
  pub All-Among : (xs : List A) (a : A) → All P xs → Among a xs → P a
  All-Among [] a h m = absurd m
  All-Among (x ∷ xs) a h (inl e) = subst P (sym e) h.0
  All-Among (x ∷ xs) a h (inr m) = All-Among xs a h.1 m

  pub All-of_Among : (xs : List A) → ((a : A) → Among a xs → P a) → All P xs
  All-of_Among [] h = tt
  All-of_Among (x ∷ xs) h = (h x (inl refl), All-of_Among xs (λ a m. h a (inr m)))
