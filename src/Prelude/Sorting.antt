-- ===== src/Prelude/Sorting.antt =====
-- Python's `sorted` and `list.sort`: stable, in ascending order of a comparison of keys.
use Prim.Native.Nat.{ℕ, zero, suc}
use mathlib.Core.Path.{◌≡◌, refl, ◌∙◌, ap}
use mathlib.Core.Logic.{◌⊎◌, ◌↔◌, inl, inr}
use mathlib.Core.Bool.{Bool, true, false}
use mathlib.Core.List.{List, [], ◌∷◌}
use native.Mathlib.Omega.{arith}
use innoprog_fastapi_deliver.Prelude.Tests.{if◌then◌else◌, Bool-cases}
use innoprog_fastapi_deliver.Prelude.Lists.{All, All-imply, All-take, Among, length, take, drop}

module _ {ℓ} {A : Type ℓ} (before : A → A → Bool) where
  -- `before x y` is `not key(y) < key(x)`, so equal keys keep their order.
  unfoldable pub sort_insert : A → List A → List A
  sort_insert x [] = x ∷ []
  sort_insert x (y ∷ ys) =
      let rest = sort_insert x ys in if before x y then x ∷ y ∷ ys else y ∷ rest

  unfoldable pub sort_by : List A → List A
  unfolding sort_insert
  sort_by [] = []
  sort_by (x ∷ xs) = sort_insert x (sort_by xs)

  -- Each item comes before all that follow it.
  abbrev pub IsOrdered : List A → Type ℓ
  IsOrdered [] = Unit
  IsOrdered (x ∷ xs) = All (λ y. before x y ≡ true) xs × IsOrdered xs

module _ {A : Type 0} (before : A → A → Bool) where
  Among-sort_insert :
      (x : A) (ys : List A) (a : A) → Among a (sort_insert before x ys) ↔ ((a ≡ x) ⊎ Among a ys)
  unfolding sort_insert
  Among-sort_insert x [] a = ((λ m. m), λ m. m)
  Among-sort_insert x (y ∷ ys) a = ground (arith, Among-sort_insert x ys a)

  pub Among-sort_by : (xs : List A) (a : A) → Among a (sort_by before xs) ↔ Among a xs
  unfolding sort_by
  Among-sort_by [] a = ((λ m. m), λ m. m)
  Among-sort_by (x ∷ xs) a =
      ground (arith, Among-sort_insert x (sort_by before xs) a, Among-sort_by xs a)

-- What a comparison of keys must be for the result to be in order.
pub record IsTotalOrder {ℓ} {A : Type ℓ} (before : A → A → Bool) : Type ℓ where
  pub either_way : (x y : A) → before x y ≡ false → before y x ≡ true
  pub through : (x y z : A) → before x y ≡ true → before y z ≡ true → before x z ≡ true

module _ {ℓ} {A : Type ℓ} (before : A → A → Bool) (total : IsTotalOrder before) where
  All-sort_insert {κ} :
      (P : A → Type κ) (x : A) (ys : List A) → P x → All P ys → All P (sort_insert before x ys)
  unfolding sort_insert
  All-sort_insert P x [] p all = (p, tt)
  All-sort_insert P x (y ∷ ys) p all = ground (arith, All-sort_insert P x ys p all.1)

  IsOrdered-sort_insert :
      (x : A) (ys : List A) → IsOrdered before ys → IsOrdered before (sort_insert before x ys)
  unfolding sort_insert
  IsOrdered-sort_insert x [] h = (tt, tt)
  IsOrdered-sort_insert x (y ∷ ys) h = elim (Bool-cases (before x y)) [
    | inl first ↦ rw first (
      (
        first,
        All-imply (λ z. before y z ≡ true) (λ z. before x z ≡ true) (λ z. total.through x y z first)
            ys h.0,
      ),
      h,
    )
    | inr later ↦ rw later (
      All-sort_insert (λ z. before y z ≡ true) x ys (total.either_way x y later) h.0,
      IsOrdered-sort_insert x ys h.1,
    )
  ]

  -- A total order of keys gives a list in that order.
  pub IsOrdered-sort_by : (xs : List A) → IsOrdered before (sort_by before xs)
  unfolding sort_by
  IsOrdered-sort_by [] = tt
  IsOrdered-sort_by (x ∷ xs) = IsOrdered-sort_insert x (sort_by before xs) (IsOrdered-sort_by xs)

module _ {ℓ} {A : Type ℓ} (before : A → A → Bool) where
  pub IsOrdered-take : (n : ℕ) (xs : List A) → IsOrdered before xs → IsOrdered before (take n xs)
  IsOrdered-take zero xs h = tt
  IsOrdered-take (suc n) [] h = tt
  IsOrdered-take (suc n) (x ∷ xs) h =
      (All-take (λ y. before x y ≡ true) n xs h.0, IsOrdered-take n xs h.1)

  pub IsOrdered-drop : (n : ℕ) (xs : List A) → IsOrdered before xs → IsOrdered before (drop n xs)
  IsOrdered-drop zero xs h = h
  IsOrdered-drop (suc n) [] h = tt
  IsOrdered-drop (suc n) (x ∷ xs) h = IsOrdered-drop n xs h.1

  length-sort_insert : (x : A) (ys : List A) → length (sort_insert before x ys) ≡ suc (length ys)
  unfolding sort_insert
  length-sort_insert x [] = refl
  length-sort_insert x (y ∷ ys) = ground (arith, length-sort_insert x ys)

  pub length-sort_by : (xs : List A) → length (sort_by before xs) ≡ length xs
  unfolding sort_by
  length-sort_by [] = refl
  length-sort_by (x ∷ xs) = length-sort_insert x (sort_by before xs) ∙ ap suc (length-sort_by xs)
