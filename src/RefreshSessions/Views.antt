-- ===== src/RefreshSessions/Views.antt =====
-- What a look-up in the store of refresh sessions finds after each method.
use innoprog_fastapi_deliver.Prelude.{
  ℕ, ◌≡◌, refl, Option, none, some, [], ◌∷◌, arith, number_eq, if◌then◌else◌, ok, err, is_none,
}
use innoprog_fastapi_deliver.Dict
use innoprog_fastapi_deliver.Dict.{get-put}
use innoprog_fastapi_deliver.Errors.{value_error}
use innoprog_fastapi_deliver.RefreshSessions.{
  RefreshSession, Sessions, register, revoke_family, revoked,
}

abbrev pub revoked_maybe : ℕ → ℕ → Option RefreshSession → Option RefreshSession
revoked_maybe family_id now none = none
revoked_maybe family_id now (some item) = some (revoked family_id now item)

pub get-revoke_family :
    (family_id now j : ℕ) (s : Sessions)
    → Dict.get j (revoke_family family_id now s) ≡ revoked_maybe family_id now (Dict.get j s)
unfolding revoke_family Dict.get
get-revoke_family family_id now j [] = refl
get-revoke_family family_id now j ((k, item) ∷ s) =
    ground (arith, get-revoke_family family_id now j s)

pub register_lem :
    (x : RefreshSession) (s : Sessions)
    → register x s ≡ (
        if is_none (Dict.get x.jti s)
        then (ok tt, Dict.put x.jti x s)
        else (err (value_error "refresh jti already exists"), s))
unfolding register
register_lem x s = ground arith
