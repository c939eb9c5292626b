-- ===== src/Tests/Tokens.antt =====
-- Refresh sessions at concrete inputs.
use innoprog_fastapi_deliver.Prelude.{ℕ, ◌≡◌, refl, none, some, [], ◌∷◌, arith}
use innoprog_fastapi_deliver.Dict
use innoprog_fastapi_deliver.RefreshSessions.{
  RefreshSession, Sessions, Rotation, register, rotate, rotate_found, revoke_family, rotated,
  reused, invalid,
}
use innoprog_fastapi_deliver.RefreshSessions.Family.{
  Later, same, registers, rotates, one_live_session, HasOneLive,
}
use innoprog_fastapi_deliver.RefreshSessions.Reuse.{reuse_ends_family}

opened : Unit {0}
unfolding register rotate rotate_found revoke_family Dict.get Dict.put
opened = tt

abbrev token : ℕ → RefreshSession
token jti = record {
  jti = jti;
  family_id = 9;
  subject = "ann";
  expires_at = 100;
  used_at = none;
  revoked_at = none;
  replacement_jti = none;
}

abbrev exchange : ℕ → ℕ → Rotation
exchange presented new = record {
  presented_jti = presented;
  family_id = 9;
  subject = "ann";
  replacement = token new;
  now = 10;
}

abbrev signed_in : Sessions
signed_in = (1, token 1) ∷ []

abbrev exchanged : Sessions
exchanged = (rotate (exchange 1 2) signed_in).1

exchanged-Later : Later [] exchanged
unfolding opened
exchanged-Later =
    rotates (exchange 1 2) signed_in (registers (token 1) [] same (λ j x h. λ e. ground (arith, h)))

one_live_session_example : HasOneLive exchanged
one_live_session_example = one_live_session exchanged exchanged-Later

first_exchange : (rotate (exchange 1 2) signed_in).0 ≡ rotated
unfolding opened
first_exchange = refl

reuse_ends_family_example :
    ((rotate (exchange 1 3) exchanged).0 ≡ reused)
    × ((u : Sessions)
        → Later (rotate (exchange 1 3) exchanged).1 u
        → (q : Rotation) → q.family_id ≡ 9
        → ¬ ((rotate q u).0 ≡ rotated))
reuse_ends_family_example =
    reuse_ends_family (exchange 1 2) signed_in first_exchange exchanged same (exchange 1 3) refl
      refl refl

-- A second exchange of the new token works, a foreign subject is refused, an expired token is revoked.
second_exchange : (rotate (exchange 2 3) exchanged).0 ≡ rotated
unfolding opened
second_exchange = refl

foreign_subject :
    rotate (record (exchange 1 2) { subject = "bob" }) signed_in ≡ (invalid, signed_in)
unfolding opened
foreign_subject = refl

expired_token :
    rotate (record (exchange 1 2) { now = 100 }) signed_in
    ≡ (invalid, (1, record (token 1) { revoked_at = some 100 }) ∷ [])
unfolding opened
expired_token = refl
