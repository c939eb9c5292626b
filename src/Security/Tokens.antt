-- ===== src/Security/Tokens.antt =====
-- Which tokens authenticate whom.
use Prim.Native.String.{◌++◌ as append}
use innoprog_fastapi_deliver.Prelude.{
  ℕ, ◌+◌, ◌/◌, ◌≤◌, ◌≡◌, String, none, some, text_eq, ◌==◌, if◌then◌else◌, arith, ok, err,
}
use innoprog_fastapi_deliver.Access.{Actor, Role, customer, courier, dispatcher, role_value}
use innoprog_fastapi_deliver.Security.{
  Claims, Library, TokenSettings, Credentials, create_token, decode_token, parse_subject,
  actor_from_claims, current_actor, unauthorized,
}

-- The claims as a token carries them: times in whole seconds.
abbrev pub in_seconds : Claims → Claims
in_seconds c = record c { iat = c.iat / 1000000; nbf = c.nbf / 1000000; exp = c.exp / 1000000 }

-- The documented behaviour of the libraries.
pub record IsLibrary (py : Library) : Type 0 where
  pub headed :
      (c : Claims) (secret typ : String)
      → py.jwt_header (py.jwt_encode c secret typ) ≡ some ("HS256", typ)
  pub decoded :
      (c : Claims) (secret typ : String) (now : ℕ)
      → c.iat ≤ now
      → c.nbf ≤ now
      → now ≤ c.exp
      → py.jwt_decode now (py.jwt_encode c secret typ) secret c.iss c.aud ≡ some (in_seconds c)
  pub uuid_read : (n : ℕ) → py.uuid_of (py.uuid_str n) ≡ some n
  pub role_parted :
      (role : Role) (rest : String)
      → py.partition (append (role_value role) (append ":" rest)) ":" ≡ some (role_value role, rest)
  pub digest_parted :
      (key message nonce : String)
      → py.partition (append (py.hmac_hexdigest key message) (append "." nonce)) "."
        ≡ some (py.hmac_hexdigest key message, nonce)

-- the subject that a token names an actor by
abbrev pub subject_of : Library → Actor → String
subject_of py actor = append (role_value actor.role) (append ":" (py.uuid_str actor.user_id))

module _ (py : Library) (settings : TokenSettings) where
  -- the claims of a token that `create_token` made
  abbrev pub claims_of : String → String → ℕ → ℕ → ℕ → ℕ → ℕ → Claims
  claims_of subject token_type lifetime token_id family_id now tenant_id = record {
    sub = subject;
    type = token_type;
    iss = settings.jwt_issuer;
    aud = settings.jwt_audience;
    iat = now;
    nbf = now;
    exp = now + lifetime;
    jti = py.uuid_str token_id;
    tenant = py.uuid_str tenant_id;
    family = if token_type == "refresh" then some (py.uuid_str family_id) else none;
  }

module _ (py : Library) (settings : TokenSettings) (laws : IsLibrary py) where
  parse_subject_lem :
      (role : Role) (user_id : ℕ)
      → parse_subject py settings (append (role_value role) (append ":" (py.uuid_str user_id)))
        ≡ ok (role, user_id)
  unfolding parse_subject
  parse_subject_lem customer user_id =
      rw (laws.role_parted customer (py.uuid_str user_id), laws.uuid_read user_id)
  parse_subject_lem courier user_id =
      rw (laws.role_parted courier (py.uuid_str user_id), laws.uuid_read user_id)
  parse_subject_lem dispatcher user_id =
      rw (laws.role_parted dispatcher (py.uuid_str user_id), laws.uuid_read user_id)

  -- A token of a type reads as that type, with its claims, as long as it lives.
  pub decode_access :
      (subject : String) (lifetime token_id family_id now tenant_id later : ℕ)
      → now ≤ later
      → later ≤ now + lifetime
      → let c = claims_of py settings subject "access" lifetime token_id family_id now tenant_id in
        decode_token py settings later (py.jwt_encode c settings.jwt_secret "at+jwt") "access"
        ≡ ok (in_seconds c)
  unfolding decode_token
  decode_access subject lifetime token_id family_id now tenant_id later order alive =
      let c = claims_of py settings subject "access" lifetime token_id family_id now tenant_id in
      ground (
        arith,
        laws.headed c settings.jwt_secret "at+jwt",
        laws.decoded c settings.jwt_secret "at+jwt" later order order alive,
        laws.uuid_read token_id,
        laws.uuid_read tenant_id,
      )

  pub decode_refresh :
      (subject : String) (lifetime token_id family_id now tenant_id later : ℕ)
      → now ≤ later
      → later ≤ now + lifetime
      → let c = claims_of py settings subject "refresh" lifetime token_id family_id now tenant_id in
        decode_token py settings later (py.jwt_encode c settings.jwt_secret "rt+jwt") "refresh"
        ≡ ok (in_seconds c)
  unfolding decode_token
  decode_refresh subject lifetime token_id family_id now tenant_id later order alive =
      let c = claims_of py settings subject "refresh" lifetime token_id family_id now tenant_id in
      ground (
        arith,
        laws.headed c settings.jwt_secret "rt+jwt",
        laws.decoded c settings.jwt_secret "rt+jwt" later order order alive,
        laws.uuid_read token_id,
        laws.uuid_read tenant_id,
        laws.uuid_read family_id,
      )

  abbrev pub with_token : String → Credentials → Credentials
  with_token token request = record request { token = some token }

  -- If the libraries behave as documented, an access token that is issued to an actor authenticates
  -- exactly that actor, with the tenant, in any request that carries it during its lifetime; a refresh
  -- token that is issued to the same actor authenticates nobody.
  pub token_authenticates_owner :
      (actor : Actor) (lifetime token_id family_id now later : ℕ) (access refresh : String)
      (request : Credentials)
      → create_token py settings
          (subject_of py actor)
          "access"
          lifetime
          token_id
          family_id
          now
          actor.tenant_id
        ≡ ok access
      → create_token py settings
          (subject_of py actor)
          "refresh"
          lifetime
          token_id
          family_id
          now
          actor.tenant_id
        ≡ ok refresh
      → now ≤ later
      → later ≤ now + lifetime
      → (current_actor py settings later (with_token access request) ≡ ok actor)
        × (current_actor py settings later (with_token refresh request)
            ≡ err (unauthorized "invalid token"))
  unfolding current_actor create_token actor_from_claims decode_token
  token_authenticates_owner actor lifetime token_id family_id now later access refresh request
        issued issued' order alive =
      let c =
        claims_of py settings (subject_of py actor) "access" lifetime token_id family_id now
          actor.tenant_id in
      let r =
        claims_of py settings (subject_of py actor) "refresh" lifetime token_id family_id now
          actor.tenant_id in
      (
        ground (
          arith,
          issued,
          parse_subject_lem actor.role actor.user_id,
          laws.uuid_read actor.tenant_id,
          decode_access (subject_of py actor) lifetime token_id family_id now actor.tenant_id later
              order alive,
        ),
        ground (arith, issued', laws.headed r settings.jwt_secret "rt+jwt"),
      )
