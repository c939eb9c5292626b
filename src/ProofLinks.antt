-- ===== src/ProofLinks.antt =====
-- src/delivery_service/storage.py: `ProofLinkSigner`, which signs short-lived links to private
-- objects. Times are microseconds; `hmac`, the pattern of the keys and the texts are parameters. A link
-- is here what its URL's query carries.
pub mod Lifetime
use Prim.Native.String.{◌++◌ as append}
use innoprog_fastapi_deliver.Prelude.{
  ℕ, ◌+◌, ◌*◌, ◌/◌, String, Bool, true, false, not, ◌&&◌, ◌||◌, number_eq, text_eq, ◌==◌, ◌!=◌, ltb,
  leb, if◌then◌else◌, Result, ok, err,
}
use innoprog_fastapi_deliver.Errors.{Error, value_error, invalid_proof_link}

-- What the signer takes from Python's library.
pub record Signing : Type 0 where
  pub hmac_hexdigest : String → String → String  -- `hmac.new(secret, message, sha256).hexdigest()`
  pub matches_proof_key : String → Bool  -- `PROOF_KEY.fullmatch(key)`
  pub int_str : ℕ → String  -- `str(n)`
  pub len : String → ℕ  -- `len(text)`

-- the attributes `_secret` and `_max_ttl_seconds`
pub record ProofLinkSigner : Type 0 where
  pub secret : String
  pub max_ttl_seconds : ℕ

pub record SignedProofLink : Type 0 where
  pub key : String
  pub expires : ℕ
  pub signature : String
  pub expires_at : ℕ

-- `int(moment.timestamp())`
abbrev pub seconds : ℕ → ℕ
seconds moment = moment / 1000000

module _ (py : Signing) where
  -- `__init__`, by the length of the encoded secret
  unfoldable pub signer : String → ℕ → ℕ → Result Error ProofLinkSigner
  signer secret secret_bytes max_ttl_seconds =
      if ltb secret_bytes 32
      then err (value_error "proof link secret must contain at least 32 bytes")
      else if not (leb 1 max_ttl_seconds && leb max_ttl_seconds 3600)
      then err (value_error "proof link max TTL must be between 1 and 3600 seconds")
      else ok (record { secret = secret; max_ttl_seconds = max_ttl_seconds })

  unfoldable pub message : String → String → ℕ → String
  message operation key expires =
      append "delivery.proof.v1\n"
        (append operation (append "\n" (append key (append "\n" (py.int_str expires)))))

  unfoldable pub issue_get : ProofLinkSigner → String → ℕ → ℕ → Result Error SignedProofLink
  issue_get self key now ttl_seconds =
      if not (py.matches_proof_key key)
      then err (value_error "unsafe proof object key")
      else if not (leb 1 ttl_seconds && leb ttl_seconds self.max_ttl_seconds)
      then err (value_error "proof link TTL exceeds policy")
      else let expires_at = now + ttl_seconds * 1000000 in
        let expires = seconds expires_at in
        ok (record {
          key = key;
          expires = expires;
          signature = py.hmac_hexdigest self.secret (message "GET" key expires);
          expires_at = expires_at;
        })

  unfoldable pub verify_get : ProofLinkSigner → String → ℕ → String → ℕ → Result Error (Unit {0})
  verify_get self key expires signature now =
      if not (py.matches_proof_key key)
      then err (invalid_proof_link "invalid proof key")
      else if ltb expires (seconds now) || ltb (seconds now + self.max_ttl_seconds) expires
      then err (invalid_proof_link "proof link expired or exceeds policy")
      else if py.len signature != 64
      then err (invalid_proof_link "invalid proof signature")
      else if py.hmac_hexdigest self.secret (message "GET" key expires) != signature
      then err (invalid_proof_link "invalid proof signature")
      else ok tt
