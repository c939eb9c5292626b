-- ===== src/AuthApi.antt =====
-- src/delivery_service/main.py: the handlers of logins, refreshes and browser sessions, with the login
-- helpers of src/delivery_service/policy.py. Password hashing and text methods are parameters, as are
-- the identifiers and times that a handler draws.
pub mod Outcomes
pub mod Chain
use Prim.Native.String.{◌++◌ as append}
use innoprog_fastapi_deliver.Prelude.{
  ℕ, ◌+◌, String, Bool, true, false, not, ◌&&◌, ◌||◌, Option, none, some, List, [], ◌∷◌, map,
  any_of, text_eq, number_eq, ◌==◌, ◌!=◌, is_none, ltb, leb, if◌then◌else◌, Exec, Result, ok, err,
  pure, raise, lift, gets, modify, raise_if, ◌>>=◌, ◌>>◌,
}
use innoprog_fastapi_deliver.Errors.{Error, value_error, http_exception}
use innoprog_fastapi_deliver.Access.{default_tenant_id}
use innoprog_fastapi_deliver.Identity
use innoprog_fastapi_deliver.Identity.{Identities, AuditEvent, record_event}
use innoprog_fastapi_deliver.RateLimiter.{Requests, check_many, RateLimitDecision}
use innoprog_fastapi_deliver.RefreshSessions.{
  RefreshSession, Sessions, Rotation, RotationResult, rotated, reused, invalid, register, rotate,
}
use innoprog_fastapi_deliver.Security.{
  Claims, Library, TokenSettings, create_token, decode_token, new_csrf_token, parse_subject,
  unauthorized, seven_days, fifteen_minutes,
}

-- What the handlers take from Argon2, `hashlib` and the methods of text.
pub record Passwords : Type 0 where
  pub verify : String → String → Bool  -- a hash and a password
  pub needs_rehash : String → Bool
  pub hash : String → String
  pub strip_casefold : String → String  -- `raw.strip().casefold()`
  pub code_points : String → List ℕ
  pub sha256_hexdigest : String → String
  pub replace_once : String → String → String → String  -- `key.replace(old, new, 1)`

-- the objects of the module that the handlers share
pub record AuthState : Type 0 where
  pub requests : Requests
  pub identities : Identities
  pub sessions : Sessions
  pub audit : List AuditEvent

pub record LoginRequest : Type 0 where
  pub username : String
  pub password : String
  pub network_key : String  -- `trusted_client_network_key` of the peer
  pub correlation_id : String

-- what a handler draws from `uuid4()` and the clock
pub record Draw : Type 0 where
  pub access_jti : ℕ
  pub refresh_jti : ℕ
  pub family_id : ℕ
  pub now : ℕ

pub record IssuedTokenPair : Type 0 where
  pub access_token : String
  pub refresh_token : String
  pub access_expires_in : ℕ
  pub refresh_jti : ℕ
  pub family_id : ℕ
  pub refresh_expires_at : ℕ

pub record PasswordCheck : Type 0 where
  pub verified : Bool
  pub replacement_hash : Option String

abbrev pub Action : Type 0 → Type 0
Action A = Exec AuthState Error A

-- a method of one of the objects
abbrev pub on_requests : {A : Type 0} → Exec Requests Error A → Action A
on_requests m s = let (r, requests) = m s.requests in (r, record s { requests = requests })

abbrev pub on_sessions : {A : Type 0} → Exec Sessions Error A → Action A
on_sessions m s = let (r, sessions) = m s.sessions in (r, record s { sessions = sessions })

abbrev pub note : AuditEvent → Action (Unit {0})
note event = modify (λ s. record s { audit = record_event event s.audit })

-- an audited refusal
abbrev pub refuse_if : Bool → AuditEvent → Error → Action (Unit {0})
refuse_if true event e = do note event; raise e
refuse_if false event e = pure tt

-- `SlidingWindowRateLimiter(limit=5, window=timedelta(minutes=1))`
abbrev pub login_limit : ℕ
login_limit = 5

abbrev pub login_window : ℕ
login_window = 60000000

module _ (py : Library) (pw : Passwords) (settings : TokenSettings) where
  unfoldable pub normalize_login_subject : String → Result Error String
  normalize_login_subject raw =
      let normalized = pw.strip_casefold raw in
      if not (leb 3 (py.len normalized) && leb (py.len normalized) 160)
      then err (value_error "invalid login identifier")
      else if any_of (λ c. ltb c 32 || c == 127) (pw.code_points normalized)
      then err (value_error "invalid login identifier")
      else ok normalized

  abbrev pub subject_or_invalid : Result Error String → String
  subject_or_invalid (ok subject) = subject
  subject_or_invalid (err e) = "invalid-subject"

  -- `_login_context`: the subject and the keys of the two budgets
  unfoldable pub login_subject : LoginRequest → String
  login_subject r = subject_or_invalid (normalize_login_subject r.username)

  unfoldable pub login_limit_keys : String → String → List String
  login_limit_keys network_key subject =
      append "login:network:" network_key
      ∷ append "login:subject:" (pw.sha256_hexdigest subject)
      ∷ []

  abbrev pub auth_event :
      Option String → String → String → String → String → String → String → AuditEvent
  auth_event actor_id subject action outcome reason_code network_key correlation_id = record {
    actor_id = actor_id;
    subject_fingerprint = pw.sha256_hexdigest subject;
    action = action;
    resource_id = none;
    outcome = outcome;
    reason_code = reason_code;
    client_network_key = network_key;
    correlation_id = correlation_id;
  }

  abbrev pub dummy_password_hash : String
  dummy_password_hash = pw.hash "dummy password used only for timing balance"

  -- `password_hash or DUMMY_PASSWORD_HASH`
  abbrev pub hash_or_dummy : Option String → String
  hash_or_dummy none = dummy_password_hash
  hash_or_dummy (some h) = if h == "" then dummy_password_hash else h

  unfoldable pub check_password : String → String → PasswordCheck
  check_password password expected =
      if pw.verify expected password
      then record {
        verified = true;
        replacement_hash = if pw.needs_rehash expected then some (pw.hash password) else none;
      }
      else record { verified = false; replacement_hash = none }

  abbrev pub too_long : LoginRequest → Bool
  too_long r = ltb 1024 (py.len r.password)

  abbrev pub password_check : LoginRequest → Option String → PasswordCheck
  password_check r stored_hash =
      check_password (if too_long r then "invalid-password" else r.password)
        (hash_or_dummy stored_hash)

  -- the lazy migration of the stored hash
  abbrev pub migrate : String → Option String → Option String → Identities → Identities
  migrate subject (some expected) (some replacement) s =
      (Identity.replace_password_hash subject expected replacement s).1
  migrate subject _ _ s = s

  abbrev pub paired :
      Draw → ℕ → Result Error String → Result Error String → Result Error IssuedTokenPair
  paired d family_id (ok access) (ok refresh) = ok (record {
    access_token = access;
    refresh_token = refresh;
    access_expires_in = 900;
    refresh_jti = d.refresh_jti;
    family_id = family_id;
    refresh_expires_at = d.now + seven_days;
  })
  paired d family_id (err e) refresh = err e
  paired d family_id (ok access) (err e) = err e

  unfoldable pub issue_token_pair : Draw → String → ℕ → ℕ → Result Error IssuedTokenPair
  unfolding create_token
  issue_token_pair d subject family_id tenant_id =
      paired d family_id
        (create_token py settings subject "access" fifteen_minutes d.access_jti family_id d.now
          tenant_id)
        (create_token py settings subject "refresh" seven_days d.refresh_jti family_id d.now
          tenant_id)

  abbrev pub new_session : IssuedTokenPair → String → RefreshSession
  new_session pair subject = record {
    jti = pair.refresh_jti;
    family_id = pair.family_id;
    subject = subject;
    expires_at = pair.refresh_expires_at;
    used_at = none;
    revoked_at = none;
    replacement_jti = none;
  }

  abbrev pub tenant_or_raise : Option ℕ → Action ℕ
  tenant_or_raise none = raise (unauthorized "invalid credentials")
  tenant_or_raise (some tenant_id) = pure tenant_id

  -- up to the point where the password is right
  unfoldable pub authenticate :
      String → LoginRequest → List String → String → Draw → Action (Unit {0})
  authenticate action r keys subject d = do
    limit ← on_requests (check_many login_limit login_window keys d.now)
    refuse_if (not limit.allowed)
        (auth_event none subject action "rate_limited" "attempt_budget_exhausted" r.network_key
          r.correlation_id)
        (http_exception 429 "too many login attempts")
    stored_hash ← gets (λ s. Identity.password_hash subject s.identities)
    refuse_if (is_none stored_hash || (not (password_check r stored_hash).verified || too_long r))
        (auth_event none subject action "denied" "invalid_credentials" r.network_key
          r.correlation_id)
        (unauthorized "invalid credentials")

  unfoldable pub issue_token : LoginRequest → Draw → Action IssuedTokenPair
  unfolding authenticate
  issue_token r d = do
    authenticate "auth.login" r (login_limit_keys r.network_key (login_subject r)) (login_subject r)
        d
    stored_hash ← gets (λ s. Identity.password_hash (login_subject r) s.identities)
    modify (λ s. record s {
      identities =
          migrate (login_subject r) stored_hash (password_check r stored_hash).replacement_hash
            s.identities;
    })
    lift (parse_subject py settings (login_subject r))
    tenant ← gets (λ s. Identity.tenant_id (login_subject r) s.identities)
    tenant_id ← tenant_or_raise tenant
    pair ← lift (issue_token_pair d (login_subject r) d.family_id tenant_id)
    on_sessions (register (new_session pair (login_subject r)))
    note (
        auth_event (some (login_subject r)) (login_subject r) "auth.login" "allowed"
          "credentials_verified" r.network_key r.correlation_id)
    pure pair

  -- `UUID(str(claims[...]))`
  abbrev pub uuid_or_raise : Option ℕ → Result Error ℕ
  uuid_or_raise none = err (value_error "badly formed hexadecimal UUID string")
  uuid_or_raise (some n) = ok n

  abbrev pub family_text : Option String → String
  family_text none = "None"
  family_text (some text) = text

  abbrev pub rotation_of : Claims → ℕ → ℕ → IssuedTokenPair → Draw → Rotation
  rotation_of claims family_id presented_jti pair d = record {
    presented_jti = presented_jti;
    family_id = family_id;
    subject = claims.sub;
    replacement = new_session pair claims.sub;
    now = d.now;
  }

  abbrev pub is_reused : RotationResult → Bool
  is_reused reused = true
  is_reused _ = false

  abbrev pub is_rotated : RotationResult → Bool
  is_rotated rotated = true
  is_rotated _ = false

  unfoldable pub rotate_refresh_token : String → String → String → Draw → Action IssuedTokenPair
  rotate_refresh_token refresh_token network_key correlation_id d = do
    claims ← lift (decode_token py settings d.now refresh_token "refresh")
    family_id ← lift (uuid_or_raise (py.uuid_of (family_text claims.family)))
    presented_jti ← lift (uuid_or_raise (py.uuid_of claims.jti))
    tenant_id ← lift (uuid_or_raise (py.uuid_of claims.tenant))
    pair ← lift (issue_token_pair d claims.sub family_id tenant_id)
    result ← on_sessions (λ sessions.
        let (r, sessions') = rotate (rotation_of claims family_id presented_jti pair d) sessions in
        (ok r, sessions'))
    refuse_if (not (is_rotated result))
        (auth_event (some claims.sub) claims.sub "auth.refresh"
          (if is_reused result then "reuse_detected" else "denied")
          (if is_reused result then "refresh_reuse_detected" else "invalid_refresh_session")
          network_key correlation_id)
        (unauthorized "invalid refresh token")
    note (
        auth_event (some claims.sub) claims.sub "auth.refresh" "rotated" "refresh_rotated"
          network_key correlation_id)
    pure pair

  -- the access token and the CSRF token of the two cookies
  unfoldable pub create_browser_session : LoginRequest → Draw → String → Action (String × String)
  unfolding authenticate
  create_browser_session r d nonce = do
    authenticate "auth.browser_login" r
        (map (λ key. pw.replace_once key "login:" "browser-login:")
          (login_limit_keys r.network_key (login_subject r)))
        (login_subject r) d
    lift (parse_subject py settings (login_subject r))
    tenant ← gets (λ s. Identity.tenant_id (login_subject r) s.identities)
    tenant_id ← tenant_or_raise tenant
    access_token ← lift (
        create_token py settings (login_subject r) "access" fifteen_minutes d.access_jti d.family_id
          d.now tenant_id)
    claims ← lift (decode_token py settings d.now access_token "access")
    note (
        auth_event (some (login_subject r)) (login_subject r) "auth.browser_login" "allowed"
          "credentials_verified" r.network_key r.correlation_id)
    pure (access_token, new_csrf_token py settings claims.jti nonce)

  -- `identities.add` of a new identity, which is in the default tenant
  abbrev pub add_identity : String → String → Action Bool
  add_identity subject password s =
      let (added, identities) =
        Identity.add subject (pw.hash password) default_tenant_id s.identities in
      (ok added, record s { identities = identities })

  unfoldable pub register_identity : String → String → Action String
  register_identity raw_subject password = do
    subject ← lift (normalize_login_subject raw_subject)
    lift (parse_subject py settings subject)
    added ← add_identity subject password
    raise_if (not added) (http_exception 409 "identity already exists")
    pure subject
