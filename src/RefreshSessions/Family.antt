-- ===== src/RefreshSessions/Family.antt =====
-- A family is the chain of sessions that one login started.
use innoprog_fastapi_deliver.Prelude.{
  ℕ, ◌≡◌, true, false, none, some, [], arith, number_eq, text_eq, leb, Option-cases, inl, inr,
  Bool-cases,
}
use innoprog_fastapi_deliver.Dict
use innoprog_fastapi_deliver.Dict.{get-put}
use innoprog_fastapi_deliver.RefreshSessions.{
  RefreshSession, Sessions, Rotation, register, revoke_family, rotate, rotate_found, is_foreign,
  is_misfit, is_live, spend, invalid, reused, rotated, RotationResult,
}
use innoprog_fastapi_deliver.RefreshSessions.Views.{get-revoke_family, register_lem}

abbrev pub expire : Rotation → RefreshSession → Sessions → Sessions
expire r current s = Dict.put r.presented_jti (record current { revoked_at = some r.now }) s

abbrev pub succeed : Rotation → RefreshSession → Sessions → Sessions
succeed r current s =
    Dict.put r.replacement.jti r.replacement (Dict.put r.presented_jti (spend r current) s)

abbrev pub Stored : ℕ → RefreshSession → Sessions → Type 0
Stored j x s = Dict.get j s ≡ some x

-- A login draws a new family id.
abbrev pub IsNewFamily : ℕ → Sessions → Type 0
IsNewFamily family_id s = (j : ℕ) (x : RefreshSession) → Stored j x s → ¬ (x.family_id ≡ family_id)

-- Calls of `register` by logins and of `rotate`, in any order.
pub data Outcome (r : Rotation) (s : Sessions) : RotationResult × Sessions → Type 0 where
  kept : Outcome r s (invalid, s)
  revoked_all :
      (current : RefreshSession)
      → Stored r.presented_jti current s
      → current.family_id ≡ r.family_id
      → current.subject ≡ r.subject
      → is_live current ≡ false
      → Outcome r s (reused, revoke_family r.family_id r.now s)
  ran_out :
      (current : RefreshSession)
      → Stored r.presented_jti current s
      → is_live current ≡ true
      → Outcome r s (invalid, expire r current s)
  succeeded :
      (current : RefreshSession)
      → Stored r.presented_jti current s
      → current.family_id ≡ r.family_id
      → current.subject ≡ r.subject
      → is_live current ≡ true
      → r.replacement.family_id ≡ r.family_id
      → Dict.get r.replacement.jti s ≡ none
      → Outcome r s (rotated, succeed r current s)

rotate_found-Outcome :
    (r : Rotation) (current : RefreshSession) (s : Sessions)
    → Stored r.presented_jti current s
    → Outcome r s (rotate_found r (some current) s)
unfolding rotate_found
rotate_found-Outcome r current s found = elim (Bool-cases (is_foreign r current)) [
  | inl foreign ↦ rw foreign kept
  | inr own ↦ elim (Bool-cases (is_live current)) [
    | inr spent ↦
        rw (own, spent)
          (revoked_all current found (ground (arith, own))
            (ground (arith, own, text_eq.same_iff current.subject r.subject)) spent)
    | inl live ↦ elim (Bool-cases (leb current.expires_at r.now)) [
      | inl late ↦ rw (own, live, late) (ran_out current found live)
      | inr early ↦ elim (Bool-cases (is_misfit r s)) [
        | inl misfit ↦ rw (own, live, early, misfit) kept
        | inr fits ↦
            rw (own, live, early, fits)
              (succeeded current found (ground (arith, own))
                (ground (arith, own, text_eq.same_iff current.subject r.subject)) live
                (ground (arith, fits)) (ground (arith, fits)))
      ]
    ]
  ]
]

pub rotate-Outcome : (r : Rotation) (s : Sessions) → Outcome r s (rotate r s)
unfolding rotate rotate_found
rotate-Outcome r s = elim (Option-cases (Dict.get r.presented_jti s)) [
  | inl missing ↦ rw missing kept
  | inr (current, found) ↦ rw found (rotate_found-Outcome r current s found)
]

pub data Later (s : Sessions) : Sessions → Type 0 where
  same : Later s s
  registers :
      (x : RefreshSession) (t : Sessions)
      → Later s t
      → IsNewFamily x.family_id t
      → Later s (register x t).1
  rotates : (r : Rotation) (t : Sessions) → Later s t → Later s (rotate r t).1

abbrev pub HasOneLive : Sessions → Type 0
HasOneLive s =
    (j k : ℕ) (x y : RefreshSession)
    → Stored j x s
    → Stored k y s
    → is_live x ≡ true
    → is_live y ≡ true
    → x.family_id ≡ y.family_id
    → j ≡ k

register-HasOneLive :
    (a : RefreshSession) (s : Sessions)
    → IsNewFamily a.family_id s
    → HasOneLive s
    → HasOneLive (register a s).1
register-HasOneLive a s new h j k x y hx hy =
    ground (
      arith,
      register_lem a s,
      get-put a.jti j a s,
      get-put a.jti k a s,
      h j k x y,
      new j x,
      new k y,
    )

-- Revoking only takes life.
revoked-is_live :
    (f now j : ℕ) (x : RefreshSession) (s : Sessions)
    → Stored j x (revoke_family f now s)
    → is_live x ≡ true
    → (a : RefreshSession) × Stored j a s
      × (is_live a ≡ true)
      × (a.family_id ≡ x.family_id)
      × ¬ (x.family_id ≡ f)
revoked-is_live f now j x s hx live = elim (Option-cases (Dict.get j s)) [
  | inl missing ↦ absurd (ground (arith, get-revoke_family f now j s))
  | inr (a, found) ↦ (
    a,
    found,
    ground (arith, get-revoke_family f now j s),
    ground (arith, get-revoke_family f now j s),
    λ e. ground (arith, get-revoke_family f now j s),
  )
]

revoke_family-HasOneLive :
    (f now : ℕ) (s : Sessions) → HasOneLive s → HasOneLive (revoke_family f now s)
revoke_family-HasOneLive f now s h j k x y hx hy lx ly e =
    let (a, ha, la, ea, _) = revoked-is_live f now j x s hx lx in
    let (b, hb, lb, eb, _) = revoked-is_live f now k y s hy ly in
    h j k a b ha hb la lb (ground (arith, e, ea, eb))

module _ (r : Rotation) (current : RefreshSession) (s : Sessions)
    (found : Stored r.presented_jti current s) (h : HasOneLive s) where
  expire-HasOneLive : HasOneLive (expire r current s)
  expire-HasOneLive j k x y hx hy = ground (
    arith,
    get-put r.presented_jti j (record current { revoked_at = some r.now }) s,
    get-put r.presented_jti k (record current { revoked_at = some r.now }) s,
    h j k x y,
  )

  abbrev spent : Sessions
  spent = Dict.put r.presented_jti (spend r current) s

  succeed-HasOneLive :
      is_live current ≡ true
      → current.family_id ≡ r.family_id
      → r.replacement.family_id ≡ r.family_id
      → HasOneLive (succeed r current s)
  succeed-HasOneLive live e e' j k x y hx hy = ground (
    arith,
    get-put r.replacement.jti j r.replacement spent,
    get-put r.replacement.jti k r.replacement spent,
    get-put r.presented_jti j (spend r current) s,
    get-put r.presented_jti k (spend r current) s,
    h j k x y,
    h j r.presented_jti x current,
    h k r.presented_jti y current,
  )

Outcome-HasOneLive :
    (r : Rotation) (s : Sessions) (o : RotationResult × Sessions)
    → Outcome r s o
    → HasOneLive s
    → HasOneLive o.1
Outcome-HasOneLive r s _ kept h = h
Outcome-HasOneLive r s _ (revoked_all current found e e' dead) h =
    revoke_family-HasOneLive r.family_id r.now s h
Outcome-HasOneLive r s _ (ran_out current found live) h = expire-HasOneLive r current s found h
Outcome-HasOneLive r s _ (succeeded current found e e'' live e' new) h =
    succeed-HasOneLive r current s found h live e e'

-- From an empty store, whatever logins and rotations came, a family holds at most one session that is
-- neither used nor revoked.
pub one_live_session : (s : Sessions) → Later [] s → HasOneLive s
unfolding Dict.get
one_live_session _ same = λ j k x y hx hy lx ly e. ground (arith, hx)
one_live_session _ (registers x t l new) = register-HasOneLive x t new (one_live_session t l)
one_live_session _ (rotates r t l) =
    Outcome-HasOneLive r t (rotate r t) (rotate-Outcome r t) (one_live_session t l)
