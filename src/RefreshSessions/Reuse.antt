-- ===== src/RefreshSessions/Reuse.antt =====
-- What a refresh token that was spent before does to its family.
use innoprog_fastapi_deliver.Prelude.{
  ℕ, ◌≡◌, refl, sym, ap, subst, false, some, arith, number_eq, text_eq, String, Option-cases, inl,
  inr,
}
use innoprog_fastapi_deliver.Dict
use innoprog_fastapi_deliver.Dict.{get-put}
use innoprog_fastapi_deliver.RefreshSessions.{
  RefreshSession, Sessions, Rotation, register, revoke_family, rotate, rotate_found, is_live, spend,
  reused, rotated, RotationResult,
}
use innoprog_fastapi_deliver.RefreshSessions.Views.{get-revoke_family, register_lem}
use innoprog_fastapi_deliver.RefreshSessions.Family.{
  Stored, Later, same, registers, rotates, IsNewFamily, Outcome, kept, revoked_all, ran_out,
  succeeded, rotate-Outcome,
}

-- A session of the family and the subject that is no longer live.
IsSpent : ℕ → String → ℕ → Sessions → Type 0
IsSpent f subject j s =
    (x : RefreshSession) × Stored j x s
    × (x.family_id ≡ f)
    × (x.subject ≡ subject)
    × (is_live x ≡ false)

module _ (f : ℕ) (subject : String) (j : ℕ) where
  IsSpent-register :
      (a : RefreshSession) (s : Sessions)
      → IsSpent f subject j s
      → IsSpent f subject j (register a s).1
  unfolding IsSpent
  IsSpent-register a s (x, found, e1, e2, e3) =
      (x, ground (arith, register_lem a s, get-put a.jti j a s), e1, e2, e3)

  IsSpent-Outcome :
      (r : Rotation) (s : Sessions) (o : RotationResult × Sessions)
      → Outcome r s o
      → IsSpent f subject j s
      → IsSpent f subject j o.1
  unfolding IsSpent
  IsSpent-Outcome r s _ kept h = h
  IsSpent-Outcome r s _ (revoked_all current found e e' dead) (x, hx, e1, e2, e3) =
      elim (Option-cases (Dict.get j (revoke_family r.family_id r.now s))) [
        | inl missing ↦ absurd (ground (arith, get-revoke_family r.family_id r.now j s))
        | inr (y, hy) ↦ (
          y,
          hy,
          ground (arith, get-revoke_family r.family_id r.now j s),
          ground (arith, get-revoke_family r.family_id r.now j s),
          ground (arith, get-revoke_family r.family_id r.now j s),
        )
      ]
  IsSpent-Outcome r s _ (ran_out current found live) (x, hx, e1, e2, e3) = (
    x,
    ground (arith, get-put r.presented_jti j (record current { revoked_at = some r.now }) s),
    e1,
    e2,
    e3,
  )
  IsSpent-Outcome r s _ (succeeded current found e e'' live e' new) (x, hx, e1, e2, e3) = (
    x,
    ground (
      arith,
      get-put r.presented_jti j (spend r current) s,
      get-put r.replacement.jti j r.replacement (Dict.put r.presented_jti (spend r current) s),
    ),
    e1,
    e2,
    e3,
  )

  Later-IsSpent : (s t : Sessions) → Later s t → IsSpent f subject j s → IsSpent f subject j t
  Later-IsSpent s _ same h = h
  Later-IsSpent s _ (registers x t l new) h = IsSpent-register x t (Later-IsSpent s t l h)
  Later-IsSpent s _ (rotates r t l) h =
      IsSpent-Outcome r t (rotate r t) (rotate-Outcome r t) (Later-IsSpent s t l h)

IsDead : ℕ → Sessions → Type 0
IsDead f s = (k : ℕ) (x : RefreshSession) → Stored k x s → x.family_id ≡ f → is_live x ≡ false

module _ (f : ℕ) (subject : String) (j : ℕ) where
  IsDead-register :
      (a : RefreshSession) (s : Sessions)
      → IsNewFamily a.family_id s
      → IsSpent f subject j s
      → IsDead f s
      → IsDead f (register a s).1
  unfolding IsDead IsSpent
  IsDead-register a s new (y, hy, e1, e2, e3) dead k x hx e =
      let other = new j y hy in
      ground (arith, register_lem a s, get-put a.jti k a s, dead k x, other)

  IsDead-revoke_family : (g now : ℕ) (s : Sessions) → IsDead f s → IsDead f (revoke_family g now s)
  unfolding IsDead
  IsDead-revoke_family g now s dead k x hx e = elim (Option-cases (Dict.get k s)) [
    | inl missing ↦ absurd (ground (arith, get-revoke_family g now k s))
    | inr (y, hy) ↦ ground (arith, get-revoke_family g now k s, dead k y hy)
  ]

  IsDead-Outcome :
      (r : Rotation) (s : Sessions) (o : RotationResult × Sessions)
      → Outcome r s o
      → IsDead f s
      → IsDead f o.1
  unfolding IsDead
  IsDead-Outcome r s _ kept dead = dead
  IsDead-Outcome r s _ (revoked_all current found e e' spent) dead =
      IsDead-revoke_family r.family_id r.now s dead
  IsDead-Outcome r s _ (ran_out current found live) dead = λ k x hx e.
      ground
        (arith, get-put r.presented_jti k (record current { revoked_at = some r.now }) s, dead k x)
  IsDead-Outcome r s _ (succeeded current found e' e''' live e'' new) dead = λ k x hx e. ground (
    arith,
    get-put r.presented_jti k (spend r current) s,
    dead k x,
    dead r.presented_jti current found,
    get-put r.replacement.jti k r.replacement (Dict.put r.presented_jti (spend r current) s),
  )

  Later-IsDead : (s t : Sessions) → Later s t → IsSpent f subject j s → IsDead f s → IsDead f t
  Later-IsDead s _ same h dead = dead
  Later-IsDead s _ (registers x t l new) h dead =
      IsDead-register x t new (Later-IsSpent f subject j s t l h) (Later-IsDead s t l h dead)
  Later-IsDead s _ (rotates r t l) h dead =
      IsDead-Outcome r t (rotate r t) (rotate-Outcome r t) (Later-IsDead s t l h dead)

-- A revoked family has no live session.
revoke_family-IsDead : (f now : ℕ) (s : Sessions) → IsDead f (revoke_family f now s)
unfolding IsDead
revoke_family-IsDead f now s k x hx e = elim (Option-cases (Dict.get k s)) [
  | inl missing ↦ absurd (ground (arith, get-revoke_family f now k s))
  | inr (y, hy) ↦ ground (arith, get-revoke_family f now k s)
]

-- In a dead family nothing rotates.
dead_refuses :
    (f : ℕ) (q : Rotation) (s : Sessions) (o : RotationResult × Sessions)
    → Outcome q s o
    → IsDead f s
    → q.family_id ≡ f
    → ¬ (o.0 ≡ rotated)
unfolding IsDead
dead_refuses f q s _ kept dead e = λ h. ground (arith, h)
dead_refuses f q s _ (revoked_all _ _ _ _ _) dead e = λ h. ground (arith, h)
dead_refuses f q s _ (ran_out _ _ _) dead e = λ h. ground (arith, h)
dead_refuses f q s _ (succeeded current found e' e''' live e'' new) dead e =
    λ _. ground (arith, dead q.presented_jti current found)

-- What a successful rotation leaves behind.
rotated-IsSpent :
    (r : Rotation) (s : Sessions) (o : RotationResult × Sessions)
    → Outcome r s o
    → o.0 ≡ rotated
    → IsSpent r.family_id r.subject r.presented_jti o.1
unfolding IsSpent
rotated-IsSpent r s _ kept h = absurd (ground (arith, h))
rotated-IsSpent r s _ (revoked_all _ _ _ _ _) h = absurd (ground (arith, h))
rotated-IsSpent r s _ (ran_out _ _ _) h = absurd (ground (arith, h))
rotated-IsSpent r s _ (succeeded current found e e'' live e' new) h = (
  spend r current,
  ground (
    arith,
    get-put r.presented_jti r.presented_jti (spend r current) s,
    get-put r.replacement.jti r.presented_jti r.replacement
        (Dict.put r.presented_jti (spend r current) s),
  ),
  e,
  e'',
  refl,
)

reuse_detected :
    (f : ℕ) (subject : String) (j : ℕ) (r : Rotation) (s : Sessions)
    → IsSpent f subject j s
    → r.presented_jti ≡ j
    → r.family_id ≡ f
    → r.subject ≡ subject
    → rotate r s ≡ (reused, revoke_family f r.now s)
unfolding IsSpent rotate rotate_found
reuse_detected f subject j r s (x, hx, e1, e2, e3) p q u =
    rw (p, q, u, hx) (ground (arith, text_eq.same_iff x.subject subject))

-- After a token was rotated, whatever calls came between, presenting it again for its family and
-- subject answers `reused`, and from then on no rotation of the family succeeds.
pub reuse_ends_family :
    (r : Rotation) (s : Sessions)
    → (rotate r s).0 ≡ rotated
    → (t : Sessions) → Later (rotate r s).1 t
    → (again : Rotation) → again.presented_jti ≡ r.presented_jti
    → again.family_id ≡ r.family_id
    → again.subject ≡ r.subject
    → ((rotate again t).0 ≡ reused)
      × ((u : Sessions)
          → Later (rotate again t).1 u
          → (q : Rotation) → q.family_id ≡ r.family_id
          → ¬ ((rotate q u).0 ≡ rotated))
reuse_ends_family r s ok t l again e e' e'' =
    let spent =
      Later-IsSpent r.family_id r.subject r.presented_jti (rotate r s).1 t l
        (rotated-IsSpent r s (rotate r s) (rotate-Outcome r s) ok) in
    let detected = reuse_detected r.family_id r.subject r.presented_jti again t spent e e' e'' in
    (
      ap (λ o. o.0) detected,
      λ u later q family.
          dead_refuses r.family_id q u (rotate q u) (rotate-Outcome q u)
            (Later-IsDead r.family_id r.subject r.presented_jti (rotate again t).1 u later
              (IsSpent-Outcome r.family_id r.subject r.presented_jti again t (rotate again t)
                (rotate-Outcome again t) spent)
              (subst (λ o. IsDead r.family_id o.1) (sym detected)
                (revoke_family-IsDead r.family_id again.now t)))
            family,
    )
