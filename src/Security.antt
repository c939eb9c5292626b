-- ===== src/Security.antt =====
-- src/delivery_service/security.py and src/delivery_service/csrf.py: bearer tokens, browser sessions and
-- the actor of a request. PyJWT, `hmac`, `UUID` and the text methods are parameters; times are
-- microseconds.
pub mod Tokens
pub mod Browser
use Prim.Native.String.{◌++◌ as append}
use innoprog_fastapi_deliver.Prelude.{
  ℕ, ◌+◌, String, Bool, true, false, not, ◌&&◌, ◌||◌, Option, none, some, List, text_eq, ◌==◌, ◌!=◌,
  if◌then◌else◌, Result, ok, err,
}
use innoprog_fastapi_deliver.Errors.{Error, value_error, key_error, http_exception}
use innoprog_fastapi_deliver.Access.{Actor, Role, customer, courier, dispatcher}

-- the claims of a token
pub record Claims : Type 0 where
  pub sub : String
  pub type : String
  pub iss : String
  pub aud : String
  pub iat : ℕ
  pub nbf : ℕ
  pub exp : ℕ
  pub jti : String
  pub tenant : String
  pub family : Option String

-- the fields of config.Settings that tokens use
pub record TokenSettings : Type 0 where
  pub jwt_secret : String
  pub jwt_issuer : String
  pub jwt_audience : String

-- What the module takes from third-party libraries and from Python's own.
pub record Library : Type 0 where
  pub jwt_encode : Claims → String → String → String  -- claims, secret and the header's `typ`
  pub jwt_header : String → Option (String × String)  -- `alg` and `typ`; `none` is PyJWTError
  -- `jwt.decode` at a time, with the secret, the issuer and the audience; `none` is PyJWTError
  pub jwt_decode : ℕ → String → String → String → String → Option Claims
  pub uuid_str : ℕ → String
  pub uuid_of : String → Option ℕ  -- `UUID(text)`; `none` is ValueError
  pub partition : String → String → Option (String × String)  -- before and after the separator
  pub hmac_hexdigest : String → String → String  -- of the key derived from a secret, and a message
  pub csrf_key : String → String
  pub int_str : ℕ → String
  pub len : String → ℕ

abbrev pub unauthorized : String → Error
unauthorized detail = http_exception 401 detail

abbrev pub seven_days : ℕ
seven_days = 604800000000

abbrev pub fifteen_minutes : ℕ
fifteen_minutes = 900000000

abbrev pub typ_of : String → String
typ_of token_type = if token_type == "access" then "at+jwt" else "rt+jwt"

-- what `current_actor` reads of a request
pub record Credentials : Type 0 where
  pub token : Option String
  pub method : String
  pub session_cookie : Option String
  pub csrf_cookie : Option String
  pub csrf_header : Option String

module _ (py : Library) (settings : TokenSettings) where
  -- `create_token` with the identifiers that it is given or draws
  unfoldable pub create_token : String → String → ℕ → ℕ → ℕ → ℕ → ℕ → Result Error String
  create_token subject token_type lifetime token_id family_id now tenant_id =
      if not (token_type == "access" || token_type == "refresh")
      then err (value_error "unsupported token type")
      else ok (
          py.jwt_encode
            (record {
              sub = subject;
              type = token_type;
              iss = settings.jwt_issuer;
              aud = settings.jwt_audience;
              iat = now;
              nbf = now;
              exp = now + lifetime;
              jti = py.uuid_str token_id;
              tenant = py.uuid_str tenant_id;
              family = if token_type == "refresh" then some (py.uuid_str family_id) else none;
            })
            settings.jwt_secret (typ_of token_type))

  -- the reads of the identifiers in `decode_token`
  abbrev pub is_uuid : String → Bool
  is_uuid text = elim (py.uuid_of text) [ none ↦ false | some _ ↦ true ]

  abbrev pub has_uuid : Option String → Bool
  has_uuid none = false
  has_uuid (some text) = is_uuid text

  abbrev pub decoded : String → Option Claims → Result Error Claims
  decoded expected_type none = err (unauthorized "invalid token")
  decoded expected_type (some claims) =
      if claims.type != expected_type
        || not (is_uuid claims.jti)
        || not (is_uuid claims.tenant)
        || (expected_type == "refresh" && not (has_uuid claims.family))
      then err (unauthorized "invalid token")
      else ok claims

  abbrev pub headed : ℕ → String → String → Option (String × String) → Result Error Claims
  headed now token expected_type none = err (unauthorized "invalid token")
  headed now token expected_type (some (alg, typ)) =
      if alg != "HS256" || typ != typ_of expected_type
      then err (unauthorized "invalid token")
      else decoded expected_type
          (py.jwt_decode now token settings.jwt_secret settings.jwt_issuer settings.jwt_audience)

  unfoldable pub decode_token : ℕ → String → String → Result Error Claims
  decode_token now token expected_type = headed now token expected_type (py.jwt_header token)

  abbrev pub role_named : String → Option Role
  role_named role =
      if role == "customer"
      then some customer
      else if role == "courier"
      then some courier
      else if role == "dispatcher"
      then some dispatcher
      else none

  abbrev pub subject_parts : Option Role → Option ℕ → Result Error (Role × ℕ)
  subject_parts (some role) (some user_id) = ok (role, user_id)
  subject_parts _ _ = err (unauthorized "invalid subject")

  abbrev pub parted : Option (String × String) → Result Error (Role × ℕ)
  parted none = err (unauthorized "invalid subject")
  parted (some (role, raw_user_id)) = subject_parts (role_named role) (py.uuid_of raw_user_id)

  unfoldable pub parse_subject : String → Result Error (Role × ℕ)
  parse_subject subject = parted (py.partition subject ":")

  abbrev pub in_tenant : Result Error (Role × ℕ) → Option ℕ → Result Error Actor
  in_tenant (err e) tenant = err e
  in_tenant (ok (role, user_id)) none = err (unauthorized "invalid actor context")
  in_tenant (ok (role, user_id)) (some tenant_id) =
      ok (record { user_id = user_id; role = role; tenant_id = tenant_id })

  unfoldable pub actor_from_claims : Claims → Result Error Actor
  actor_from_claims claims = in_tenant (parse_subject claims.sub) (py.uuid_of claims.tenant)

  -- csrf._message
  abbrev pub csrf_message : String → String → String
  csrf_message session_jti nonce = append (py.int_str (py.len session_jti)) (
      append "!"
        (append session_jti (append "!" (append (py.int_str (py.len nonce)) (append "!" nonce)))))

  abbrev pub csrf_signature : String → String → String
  csrf_signature session_jti nonce =
      py.hmac_hexdigest (py.csrf_key settings.jwt_secret) (csrf_message session_jti nonce)

  -- `new_csrf_token` with the nonce that it draws
  unfoldable pub new_csrf_token : String → String → String
  new_csrf_token session_jti nonce = append (csrf_signature session_jti nonce) (append "." nonce)

  abbrev pub signed : String → Option (String × String) → Bool
  signed session_jti none = false
  signed session_jti (some (supplied_signature, nonce)) =
      supplied_signature != ""
      && (nonce != "" && supplied_signature == csrf_signature session_jti nonce)

  unfoldable pub verify_csrf_token : Option String → Option String → String → Bool
  verify_csrf_token (some cookie_token) (some header_token) session_jti =
      cookie_token != ""
      && (header_token != ""
          && (cookie_token == header_token && signed session_jti (py.partition header_token ".")))
  verify_csrf_token _ _ session_jti = false

  abbrev pub is_safe : String → Bool
  is_safe method = method == "GET" || (method == "HEAD" || method == "OPTIONS")

  abbrev pub claimed : Result Error Claims → Result Error Actor
  claimed (err e) = err e
  claimed (ok claims) = actor_from_claims claims

  abbrev pub in_session : Credentials → Result Error Claims → Result Error Actor
  in_session c (err e) = err e
  in_session c (ok claims) =
      if not (is_safe c.method) && not (verify_csrf_token c.csrf_cookie c.csrf_header claims.jti)
      then err (http_exception 403 "CSRF check failed")
      else actor_from_claims claims

  abbrev pub from_cookie : ℕ → Credentials → Option String → Result Error Actor
  from_cookie now c none = err (unauthorized "authentication required")
  from_cookie now c (some session_token) = in_session c (decode_token now session_token "access")

  abbrev pub from_token : ℕ → Credentials → Option String → Result Error Actor
  from_token now c (some token) = claimed (decode_token now token "access")
  from_token now c none = from_cookie now c c.session_cookie

  unfoldable pub current_actor : ℕ → Credentials → Result Error Actor
  current_actor now c = from_token now c c.token
