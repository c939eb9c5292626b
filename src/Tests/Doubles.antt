-- ===== src/Tests/Doubles.antt =====
-- A library for the tests whose functions behave as documented: a token is its fields, one after the
-- other.
use Prim.Native.Char.{Char, code}
use Prim.Native.String.{◌++◌ as append}
use Prim.Native.String.append
use innoprog_fastapi_deliver.Prelude.{
  ℕ, zero, suc, ◌≤◌, ◌≡◌, refl, ap, String, Bool, true, not, ◌&&◌, Option, none, some, List, [],
  ◌∷◌, text_eq, number_eq, ◌==◌, leb, if◌then◌else◌, arith,
}
use innoprog_fastapi_deliver.Access.{Role, customer, courier, dispatcher, role_value}
use innoprog_fastapi_deliver.Security.{Claims, Library}
use innoprog_fastapi_deliver.Security.Tokens.{IsLibrary, in_seconds}

unfoldable pub unary : ℕ → String
unary zero = String.[]
unary (suc n) = String.◌∷◌ "a" (unary n)

unfoldable pub size : String → ℕ
size String.[] = 0
size (String.◌∷◌ c s) = suc (size s)

pub size-unary : (n : ℕ) → size (unary n) ≡ n
unfolding size unary
size-unary zero = refl
size-unary (suc n) = ap suc (size-unary n)

-- the text up to the separator, and after it
unfoldable pub cut : ℕ → String → Option (String × String)
cut sep String.[] = none
cut sep (String.◌∷◌ c s) =
    if code c == sep
    then some (String.[], s)
    else elim (cut sep s) [ none ↦ none | some (a, b) ↦ some (String.◌∷◌ c a, b) ]

abbrev pub lacks : ℕ → String → Bool
lacks sep String.[] = true
lacks sep (String.◌∷◌ c s) = not (code c == sep) && lacks sep s

cut-append :
    (sep : Char) (a b : String)
    → lacks (code sep) a ≡ true
    → cut (code sep) (append a (String.◌∷◌ sep b)) ≡ some (a, b)
unfolding cut
cut-append sep String.[] b h =
    rw (append.nil (String.◌∷◌ sep b)) (ground (arith, number_eq.same_iff (code sep) (code sep)))
cut-append sep (String.◌∷◌ c a) b h =
    rw (append.cons c a (String.◌∷◌ sep b)) (ground (arith, cut-append sep a b))

unfoldable pub escape : String → String → String
escape String.[] rest = String.◌∷◌ "." rest
escape (String.◌∷◌ c s) rest = String.◌∷◌ "x" (String.◌∷◌ c (escape s rest))

unfoldable pub read : String → String × String
read String.[] = (String.[], String.[])
read (String.◌∷◌ m String.[]) = (String.[], String.[])
read (String.◌∷◌ m (String.◌∷◌ c s)) =
    let (a, b) = read s in
    if code m == 120 then (String.◌∷◌ c a, b) else (String.[], String.◌∷◌ c s)

read-escape : (s rest : String) → read (escape s rest) ≡ (s, rest)
unfolding read escape
read-escape String.[] String.[] = refl
read-escape String.[] (String.◌∷◌ c rest) = refl
read-escape (String.◌∷◌ c s) rest = ground (arith, read-escape s rest)

unfoldable pub write_all : List String → String
write_all [] = String.[]
write_all (s ∷ fields) = escape s (write_all fields)

unfoldable pub read_all : List String → String → List String
read_all [] text = []
read_all (_ ∷ fields) text = let (a, b) = read text in a ∷ read_all fields b

pub read_all-write_all : (fields : List String) → read_all fields (write_all fields) ≡ fields
unfolding read_all write_all
read_all-write_all [] = refl
read_all-write_all (s ∷ fields) =
    rw (read-escape s (write_all fields), read_all-write_all fields) refl

abbrev family_flag : Option String → String
family_flag none = ""
family_flag (some _) = "f"

abbrev family_text : Option String → String
family_text none = ""
family_text (some s) = s

abbrev family_of : String → String → Option String
family_of flag text = if flag == "f" then some text else none

family_of_lem :
    (family : Option String) → family_of (family_flag family) (family_text family) ≡ family
family_of_lem none = refl
family_of_lem (some s) = refl

abbrev fields_of : Claims → String → String → List String
fields_of c secret typ =
    typ
    ∷ secret
    ∷ c.sub
    ∷ c.type
    ∷ c.iss
    ∷ c.aud
    ∷ unary c.iat
    ∷ unary c.nbf
    ∷ unary c.exp
    ∷ c.jti
    ∷ c.tenant
    ∷ family_flag c.family
    ∷ family_text c.family
    ∷ []

unfoldable pub blank : List String
blank = "" ∷ "" ∷ "" ∷ "" ∷ "" ∷ "" ∷ "" ∷ "" ∷ "" ∷ "" ∷ "" ∷ "" ∷ "" ∷ []

abbrev encode : Claims → String → String → String
encode c secret typ = write_all (fields_of c secret typ)

abbrev typ_field : List String → Option (String × String)
typ_field (typ ∷ _) = some ("HS256", typ)
typ_field [] = none

abbrev claims_field : ℕ → String → String → String → List String → Option Claims
claims_field now secret iss aud
      (typ ∷ secret' ∷ sub ∷ type ∷ iss' ∷ aud' ∷ iat ∷ nbf ∷ exp ∷ jti ∷ tenant ∷ flag ∷ text
        ∷ []) =
    if secret' == secret
      && (iss' == iss
          && (aud' == aud && (leb (size iat) now && (leb (size nbf) now && leb now (size exp)))))
    then some (
        in_seconds (record {
          sub = sub;
          type = type;
          iss = iss';
          aud = aud';
          iat = size iat;
          nbf = size nbf;
          exp = size exp;
          jti = jti;
          tenant = tenant;
          family = family_of flag text;
        }))
    else none
claims_field now secret iss aud _ = none

unfoldable pub decode : ℕ → String → String → String → String → Option Claims
unfolding blank
decode now token secret iss aud = claims_field now secret iss aud (read_all blank token)

unfoldable pub header : String → Option (String × String)
unfolding blank
header token = typ_field (read_all blank token)

read_fields :
    (c : Claims) (secret typ : String)
    → read_all blank (encode c secret typ) ≡ fields_of c secret typ
unfolding blank read_all
read_fields c secret typ = read_all-write_all (fields_of c secret typ)

decode-encode :
    (c : Claims) (secret typ : String) (now : ℕ)
    → c.iat ≤ now
    → c.nbf ≤ now
    → now ≤ c.exp
    → decode now (encode c secret typ) secret c.iss c.aud ≡ some (in_seconds c)
unfolding decode
decode-encode c secret typ now h1 h2 h3 = rw (read_fields c secret typ) (
    rw (size-unary c.iat, size-unary c.nbf, size-unary c.exp, family_of_lem c.family)
      (ground (
        arith,
        text_eq.same_iff secret secret,
        text_eq.same_iff c.iss c.iss,
        text_eq.same_iff c.aud c.aud,
      )))

abbrev first_code : String → ℕ
first_code String.[] = 0
first_code (String.◌∷◌ c s) = code c

abbrev pub library : Library
library = record {
  jwt_encode = encode;
  jwt_header = header;
  jwt_decode = decode;
  uuid_str = unary;
  uuid_of = λ text. some (size text);
  partition = λ text separator. cut (first_code separator) text;
  hmac_hexdigest = λ key message. "digest";
  csrf_key = λ secret. secret;
  int_str = unary;
  len = size;
}

colon : (a rest : String) → lacks 58 a ≡ true → cut 58 (append a (append ":" rest)) ≡ some (a, rest)
colon a rest h = rw (append.cons ":" "" rest, append.nil rest) (cut-append ":" a rest h)

dot : (a rest : String) → lacks 46 a ≡ true → cut 46 (append a (append "." rest)) ≡ some (a, rest)
dot a rest h = rw (append.cons "." "" rest, append.nil rest) (cut-append "." a rest h)

role_parted_lem :
    (role : Role) (rest : String)
    → cut 58 (append (role_value role) (append ":" rest)) ≡ some (role_value role, rest)
role_parted_lem customer rest = colon "customer" rest refl
role_parted_lem courier rest = colon "courier" rest refl
role_parted_lem dispatcher rest = colon "dispatcher" rest refl

pub library-IsLibrary : IsLibrary library
unfolding header
library-IsLibrary = record {
  headed = λ c secret typ. rw (read_fields c secret typ) refl;
  decoded = λ c secret typ now h1 h2 h3. decode-encode c secret typ now h1 h2 h3;
  uuid_read = λ n. ap some (size-unary n);
  role_parted = role_parted_lem;
  digest_parted = λ key message nonce. dot "digest" nonce refl;
}
