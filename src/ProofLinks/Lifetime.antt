-- ===== src/ProofLinks/Lifetime.antt =====
-- Which links verify, and for how long an issued link does.
use innoprog_fastapi_deliver.Prelude.{
  ℕ, ◌+◌, ◌*◌, ◌/◌, ◌≤◌, ◌<◌, ◌≡◌, ◌↔◌, String, true, arith, text_eq, number_eq, ok, err,
}
use innoprog_fastapi_deliver.Errors.{invalid_proof_link}
use innoprog_fastapi_deliver.ProofLinks.{
  Signing, ProofLinkSigner, SignedProofLink, seconds, message, issue_get, verify_get,
}

module _ (py : Signing) where
  -- A link verifies at a time exactly when its key has the pattern, the time has not passed its expiry
  -- and is within the policy of it, and its signature, of 64 characters, is the signer's for reading
  -- that key until that expiry.
  pub verify_iff :
      (self : ProofLinkSigner) (key : String) (expires : ℕ) (signature : String) (now : ℕ)
      → (verify_get py self key expires signature now ≡ ok tt) ↔ (
          (py.matches_proof_key key ≡ true)
          × (seconds now ≤ expires)
          × (expires ≤ seconds now + self.max_ttl_seconds)
          × (py.len signature ≡ 64)
          × (py.hmac_hexdigest self.secret (message py "GET" key expires) ≡ signature))
  unfolding verify_get
  verify_iff self key expires signature now = ground (
    arith,
    text_eq.same_iff (py.hmac_hexdigest self.secret (message py "GET" key expires)) signature,
  )

  -- what an issued link carries
  issued_facts :
      (self : ProofLinkSigner) (key : String) (now ttl_seconds : ℕ) (link : SignedProofLink)
      → issue_get py self key now ttl_seconds ≡ ok link
      → (py.matches_proof_key link.key ≡ true)
        × (link.expires ≡ seconds now + ttl_seconds)
        × (ttl_seconds ≤ self.max_ttl_seconds)
        × (py.hmac_hexdigest self.secret (message py "GET" link.key link.expires) ≡ link.signature)
  unfolding issue_get
  issued_facts self key now ttl_seconds link issued =
      let later : (now + ttl_seconds * 1000000) / 1000000 ≡ now / 1000000 + ttl_seconds =
        omega arith in
      ground (arith, issued, later)

  -- If the signatures have 64 characters, an issued link verifies from its issue to the end of the
  -- second of its expiry, and is refused as expired from the next second on.
  pub issued_link_lives :
      (self : ProofLinkSigner) (key : String) (now ttl_seconds later : ℕ) (link : SignedProofLink)
      → ((secret text : String) → py.len (py.hmac_hexdigest secret text) ≡ 64)
      → issue_get py self key now ttl_seconds ≡ ok link
      → now ≤ later
      → (later < (link.expires + 1) * 1000000
          → verify_get py self link.key link.expires link.signature later ≡ ok tt)
        × ((link.expires + 1) * 1000000 ≤ later
            → verify_get py self link.key link.expires link.signature later
              ≡ err (invalid_proof_link "proof link expired or exceeds policy"))
  unfolding verify_get
  issued_link_lives self key now ttl_seconds later link sized issued order =
      let (fits, expiry, within, signed) = issued_facts self key now ttl_seconds link issued in
      let size = sized self.secret (message py "GET" link.key link.expires) in
      (
        λ soon.
            (verify_iff self link.key link.expires link.signature later).1
              (fits, omega arith, omega arith, ground (arith, signed, size), signed),
        λ late. ground (arith, fits, late),
      )
