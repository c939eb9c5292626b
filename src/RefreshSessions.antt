-- ===== src/RefreshSessions.antt =====
-- src/delivery_service/refresh_sessions.py: `InMemoryRefreshSessionRepository`, the chain of refresh
-- tokens of a login. Its lock makes a call atomic, so a method is a function of the stored sessions.
pub mod Views
pub mod Family
pub mod Reuse
use innoprog_fastapi_deliver.Prelude.{
  ℕ, String, Bool, true, false, not, ◌&&◌, ◌||◌, Option, none, some, List, [], ◌∷◌, number_eq,
  text_eq, ◌==◌, ◌!=◌, is_none, leb, if◌then◌else◌, Exec, gets, modify, raise_if, ◌>>=◌, ◌>>◌,
}
use innoprog_fastapi_deliver.Dict
use innoprog_fastapi_deliver.Dict.{Dict}
use innoprog_fastapi_deliver.Errors.{Error, value_error}

pub data RotationResult : Type 0 where
  rotated : RotationResult
  reused : RotationResult
  invalid : RotationResult

pub record RefreshSession : Type 0 where
  pub jti : ℕ
  pub family_id : ℕ
  pub subject : String
  pub expires_at : ℕ
  pub used_at : Option ℕ
  pub revoked_at : Option ℕ
  pub replacement_jti : Option ℕ

-- the attribute `_sessions`
abbrev pub Sessions : Type 0
Sessions = Dict ℕ RefreshSession

-- the arguments of `rotate`
pub record Rotation : Type 0 where
  pub presented_jti : ℕ
  pub family_id : ℕ
  pub subject : String
  pub replacement : RefreshSession
  pub now : ℕ

-- neither used nor revoked
abbrev pub is_live : RefreshSession → Bool
is_live session = is_none session.used_at && is_none session.revoked_at

unfoldable pub register : RefreshSession → Exec Sessions Error (Unit {0})
register session = do
  stored ← gets (λ s. Dict.get session.jti s)
  raise_if (not (is_none stored)) (value_error "refresh jti already exists")
  modify (λ s. Dict.put session.jti session s)

abbrev pub revoked : ℕ → ℕ → RefreshSession → RefreshSession
revoked family_id now item =
    if item.family_id == family_id && is_none item.revoked_at
    then record item { revoked_at = some now }
    else item

-- `for item in self._sessions.values(): ...`
unfoldable pub revoke_family : ℕ → ℕ → Sessions → Sessions
revoke_family family_id now [] = []
revoke_family family_id now ((jti, item) ∷ s) =
    (jti, revoked family_id now item) ∷ revoke_family family_id now s

abbrev pub is_foreign : Rotation → RefreshSession → Bool
is_foreign r current = current.family_id != r.family_id || current.subject != r.subject

abbrev pub is_misfit : Rotation → Sessions → Bool
is_misfit r s = is_foreign r r.replacement || not (is_none (Dict.get r.replacement.jti s))

abbrev pub spend : Rotation → RefreshSession → RefreshSession
spend r current = record current { used_at = some r.now; replacement_jti = some r.replacement.jti }

-- `rotate` once the presented session was looked up
unfoldable pub rotate_found :
    Rotation → Option RefreshSession → Sessions → RotationResult × Sessions
rotate_found r none s = (invalid, s)
rotate_found r (some current) s =
    if is_foreign r current
    then (invalid, s)
    else if not (is_live current)
    then (reused, revoke_family r.family_id r.now s)
    else if leb current.expires_at r.now
    then (invalid, Dict.put r.presented_jti (record current { revoked_at = some r.now }) s)
    else if is_misfit r s
    then (invalid, s)
    else (
      rotated,
      Dict.put r.replacement.jti r.replacement (Dict.put r.presented_jti (spend r current) s),
    )

unfoldable pub rotate : Rotation → Sessions → RotationResult × Sessions
rotate r s = rotate_found r (Dict.get r.presented_jti s) s
