-- ===== src/Tests/Uploads.antt =====
-- Proofs and their links at concrete inputs.
use innoprog_fastapi_deliver.Prelude.{
  ◌+◌, ◌*◌, ◌≤◌, ◌<◌, ◌≡◌, ◌⊎◌, refl, true, List, [], ◌∷◌, ok, err, arith, length, String, ltb,
  if◌then◌else◌,
}
use innoprog_fastapi_deliver.Errors.{invalid_proof_link, upload_too_large}
use innoprog_fastapi_deliver.ProofLinks.{
  Signing, ProofLinkSigner, SignedProofLink, message, issue_get, verify_get,
}
use innoprog_fastapi_deliver.ProofLinks.Lifetime.{issued_link_lives}
use innoprog_fastapi_deliver.Proofs.{
  Bytes, ValidatedProof, starts_with, detect_image, read_all, inspect_proof, png_signature,
  jpeg_signature, checked,
}
use innoprog_fastapi_deliver.Proofs.Reading.{whole, inspect_judges_whole, accepted_proof_is_image}
use innoprog_fastapi_deliver.Tests.Data.{plain, tally}

opened : Unit {0}
unfolding issue_get verify_get message starts_with detect_image read_all inspect_proof
opened = tt

-- A digest that is its own message, and counts as 64 characters long.
abbrev signing : Signing
signing = record {
  hmac_hexdigest = λ secret text. text;
  matches_proof_key = λ key. true;
  int_str = tally;
  len = λ text. 64;
}

abbrev self : ProofLinkSigner
self = record { secret = "secret"; max_ttl_seconds = 900 }

abbrev link : SignedProofLink
link = record {
  key = "proofs/1";
  expires = 3;
  signature = "delivery.proof.v1\nGET\nproofs/1\niii.";
  expires_at = 3500000;
}

issued : issue_get signing self "proofs/1" 1500000 2 ≡ ok link
unfolding opened
issued = refl

issued_link_lives_example :
    (2000000 < (3 + 1) * 1000000
      → verify_get signing self "proofs/1" 3 link.signature 2000000 ≡ ok tt)
    × ((3 + 1) * 1000000 ≤ 2000000
        → verify_get signing self "proofs/1" 3 link.signature 2000000
          ≡ err (invalid_proof_link "proof link expired or exceeds policy"))
issued_link_lives_example =
    issued_link_lives signing self "proofs/1" 1500000 2 2000000 link (λ secret text. refl) issued
      (omega arith)

abbrev jpeg_chunks : List Bytes
jpeg_chunks = (255 ∷ 216 ∷ []) ∷ (255 ∷ 7 ∷ []) ∷ [] ∷ (1 ∷ []) ∷ []

abbrev no_digest : Bytes → String
no_digest body = tally (length body)

abbrev jpeg_proof : ValidatedProof
jpeg_proof = record {
  metadata = record {
    key = "proofs/i./ii./iiii..jpg";
    tenant_id = 1;
    order_id = 2;
    media_type = "image/jpeg";
    size = 4;
    sha256 = "iiii.";
  };
  content = 255 ∷ 216 ∷ 255 ∷ 7 ∷ [];
}

jpeg_accepted : inspect_proof plain no_digest 1 2 4 ".jpeg" jpeg_chunks ≡ ok jpeg_proof
unfolding opened
jpeg_accepted = refl

accepted_proof_is_image_example :
    (jpeg_proof.content ≡ whole jpeg_chunks)
    × (jpeg_proof.metadata.size ≡ length jpeg_proof.content)
    × (jpeg_proof.metadata.size ≤ 4)
    × (jpeg_proof.metadata.sha256 ≡ no_digest jpeg_proof.content)
    × (((jpeg_proof.metadata.media_type ≡ "image/png")
          × (starts_with jpeg_proof.content png_signature ≡ true))
        ⊎ ((jpeg_proof.metadata.media_type ≡ "image/jpeg")
            × (starts_with jpeg_proof.content jpeg_signature ≡ true)))
accepted_proof_is_image_example =
    accepted_proof_is_image plain no_digest 1 2 4 ".jpeg" jpeg_chunks jpeg_proof jpeg_accepted

inspect_judges_whole_example : inspect_proof plain no_digest 1 2 3 "" jpeg_chunks ≡ (
    if ltb 3 (length (whole jpeg_chunks))
    then err (upload_too_large "proof exceeds configured size limit")
    else checked plain no_digest 1 2 ""
        (whole jpeg_chunks)
        (length (whole jpeg_chunks))
        (detect_image (whole jpeg_chunks)))
inspect_judges_whole_example = inspect_judges_whole plain no_digest 1 2 3 "" jpeg_chunks
