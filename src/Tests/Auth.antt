-- ===== src/Tests/Auth.antt =====
-- Logins, tokens and browser sessions at concrete inputs.
use innoprog_fastapi_deliver.Prelude.{
  ℕ, String, ◌≡◌, refl, true, false, none, some, [], ◌∷◌, arith, ok, err, Result,
}
use innoprog_fastapi_deliver.Dict
use innoprog_fastapi_deliver.Identity
use innoprog_fastapi_deliver.RateLimiter
use innoprog_fastapi_deliver.RefreshSessions
use innoprog_fastapi_deliver.RefreshSessions.Family.{same}
use innoprog_fastapi_deliver.Security.{
  Claims, Credentials, TokenSettings, create_token, decode_token, actor_from_claims, current_actor,
  parse_subject, verify_csrf_token, unauthorized,
}
use innoprog_fastapi_deliver.Security.Tokens.{
  claims_of, subject_of, with_token, token_authenticates_owner,
}
use innoprog_fastapi_deliver.Security.Browser.{IsProof, unsafe_cookie-IsProof}
use innoprog_fastapi_deliver.AuthApi.{
  AuthState, Passwords, LoginRequest, Draw, IssuedTokenPair, issue_token, authenticate,
  login_subject, login_limit_keys, normalize_login_subject, check_password, issue_token_pair,
}
use innoprog_fastapi_deliver.AuthApi.Chain.{pair_of, refreshed, stolen_token_is_caught}
use innoprog_fastapi_deliver.Tests.Data.{buyer}
use innoprog_fastapi_deliver.Tests.Doubles.{
  library, library-IsLibrary, size, cut, unary, decode, header, read_all, read, blank, write_all,
  escape,
}
use innoprog_fastapi_deliver.Errors.{Error, http_exception}

abbrev settings : TokenSettings
settings = record { jwt_secret = "secret"; jwt_issuer = "issuer"; jwt_audience = "audience" }

abbrev passwords : Passwords
passwords = record {
  verify = λ hash password. true;
  needs_rehash = λ hash. false;
  hash = λ password. password;
  strip_casefold = λ t. t;
  code_points = λ t. [];
  sha256_hexdigest = λ t. t;
  replace_once = λ t old new. t;
}

opened : Unit {0}
unfolding create_token decode_token actor_from_claims current_actor parse_subject size cut
    issue_token authenticate login_subject login_limit_keys normalize_login_subject check_password
    issue_token_pair Dict.get Dict.put Identity.password_hash Identity.tenant_id
    RateLimiter.check_many RateLimiter.expire RateLimiter.expire_all RateLimiter.consume
    RefreshSessions.register
opened = tt

abbrev request : Credentials
request = record {
  token = none;
  method = "GET";
  session_cookie = none;
  csrf_cookie = none;
  csrf_header = none;
}

abbrev token_for : String → String → String
token_for type typ =
    library.jwt_encode
      (claims_of library settings (subject_of library buyer) type 60 3 4 10 buyer.tenant_id)
      "secret" typ

token_authenticates_owner_example :
    (current_actor library settings 20
        (with_token library settings library-IsLibrary (token_for "access" "at+jwt") request)
      ≡ ok buyer)
    × (current_actor library settings 20
          (with_token library settings library-IsLibrary (token_for "refresh" "rt+jwt") request)
        ≡ err (unauthorized "invalid token"))
unfolding create_token
token_authenticates_owner_example =
    token_authenticates_owner library settings library-IsLibrary buyer 60 3 4 10 20
      (token_for "access" "at+jwt") (token_for "refresh" "rt+jwt") request refl refl (omega arith)
      (omega arith)

abbrev before : AuthState
before = record {
  requests = [];
  identities = record {
    passwords = ("customer:aaaaa", "hash") ∷ [];
    tenants = ("customer:aaaaa", 1) ∷ [];
  };
  sessions = [];
  audit = [];
}

abbrev ann : LoginRequest
ann = record {
  username = "customer:aaaaa";
  password = "pw";
  network_key = "net";
  correlation_id = "web";
}

abbrev draw : ℕ → ℕ → Draw
draw refresh_jti now = record {
  access_jti = 100;
  refresh_jti = refresh_jti;
  family_id = 9;
  now = now;
}

abbrev pair : IssuedTokenPair
pair = pair_of library passwords settings (draw 1 10) "customer:aaaaa" 9 1

abbrev signed_in : AuthState
signed_in = (issue_token library passwords settings ann (draw 1 10) before).1

logs_in : issue_token library passwords settings ann (draw 1 10) before ≡ (ok pair, signed_in)
unfolding opened
logs_in = refl

abbrev refresh : IssuedTokenPair → Draw → AuthState → Result Error IssuedTokenPair × AuthState
refresh p = refreshed library passwords settings p.refresh_token

abbrev used : AuthState
used = (refresh pair (draw 2 20) signed_in).1

abbrev stolen : AuthState
stolen = (refresh pair (draw 3 30) used).1

stolen_token_is_caught_example :
    (pair' : IssuedTokenPair) × ((refresh pair (draw 2 20) signed_in).0 ≡ ok pair')
    × ((refresh pair (draw 3 30) used).0 ≡ err (unauthorized "invalid refresh token"))
    × ((refresh pair' (draw 4 40) stolen).0 ≡ err (unauthorized "invalid refresh token"))
unfolding opened
stolen_token_is_caught_example =
    stolen_token_is_caught library passwords settings library-IsLibrary ann (draw 1 10) (draw 2 20)
      (draw 3 30) (draw 4 40) pair before signed_in used stolen logs_in (omega arith) (omega arith)
      (omega arith) (omega arith) (omega arith) (omega arith) refl same same

-- A browser's request that changes something.
abbrev posted : Credentials
posted = record {
  token = none;
  method = "POST";
  session_cookie = some (token_for "access" "at+jwt");
  csrf_cookie = some "digest.nonce";
  csrf_header = some "digest.nonce";
}

accepts_posted : current_actor library settings 20 posted ≡ ok buyer
unfolding opened verify_csrf_token decode header read_all read blank write_all escape unary
accepts_posted = refl

unsafe_cookie-IsProof_example :
    (session : String) × (claims : Claims) × (posted.session_cookie ≡ some session)
    × (decode_token library settings 20 session "access" ≡ ok claims)
    × (actor_from_claims library settings claims ≡ ok buyer)
    × IsProof library settings posted claims.jti
unsafe_cookie-IsProof_example =
    unsafe_cookie-IsProof library settings 20 posted buyer refl refl accepts_posted

-- Without the header it is refused.
no_header :
    current_actor library settings 20 (record posted { csrf_header = none })
    ≡ err (http_exception 403 "CSRF check failed")
unfolding opened verify_csrf_token decode header read_all read blank write_all escape unary
no_header = refl
