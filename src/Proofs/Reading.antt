-- ===== src/Proofs/Reading.antt =====
-- A proof that is read in chunks is judged as its whole body.
use innoprog_fastapi_deliver.Prelude.{
  ℕ, ◌+◌, ◌≤◌, ◌≡◌, ◌⊎◌, String, true, arith, List, [], ◌∷◌, ◌++◌, length, length-append, ltb,
  if◌then◌else◌, ok, err,
}
use innoprog_fastapi_deliver.Runtime.{Runtime}
use innoprog_fastapi_deliver.Errors.{upload_too_large}
use innoprog_fastapi_deliver.Proofs.{
  Bytes, ValidatedProof, read_all, inspect_proof, checked, detect_image, starts_with, png_signature,
  jpeg_signature,
}

-- all the bytes before the end of the file, which is an empty chunk
abbrev pub whole : List Bytes → Bytes
whole [] = []
whole ([] ∷ chunks) = []
whole ((b ∷ bs) ∷ chunks) = (b ∷ bs) ++ whole chunks

read_whole :
    (max_bytes size : ℕ) (chunks : List Bytes)
    → size ≤ max_bytes
    → read_all max_bytes size chunks ≡ (
        if ltb max_bytes (size + length (whole chunks))
        then err (upload_too_large "proof exceeds configured size limit")
        else ok (whole chunks, size + length (whole chunks)))
unfolding read_all
read_whole max_bytes size [] room = ground arith
read_whole max_bytes size ([] ∷ chunks) room = ground arith
read_whole max_bytes size ((b ∷ bs) ∷ chunks) room = ground (
  arith,
  read_whole max_bytes (size + length (b ∷ bs)) chunks,
  length-append (b ∷ bs) (whole chunks),
)

module _ (py : Runtime) (digest_of : Bytes → String) where
  -- An upload of more bytes than the limit, however they come in chunks, is refused as too large; any
  -- other is judged by its whole body.
  pub inspect_judges_whole :
      (tenant_id order_id max_bytes : ℕ) (original_suffix : String) (chunks : List Bytes)
      → inspect_proof py digest_of tenant_id order_id max_bytes original_suffix chunks ≡ (
          if ltb max_bytes (length (whole chunks))
          then err (upload_too_large "proof exceeds configured size limit")
          else checked py digest_of tenant_id order_id original_suffix
              (whole chunks)
              (length (whole chunks))
              (detect_image (whole chunks)))
  unfolding inspect_proof
  inspect_judges_whole tenant_id order_id max_bytes original_suffix chunks =
      ground (arith, read_whole max_bytes 0 chunks)

  -- A proof that is accepted is the uploaded body, within the limit, which starts as a PNG or a JPEG
  -- image does and is declared as that type, with the size and the digest of the body.
  pub accepted_proof_is_image :
      (tenant_id order_id max_bytes : ℕ) (original_suffix : String) (chunks : List Bytes)
      (v : ValidatedProof)
      → inspect_proof py digest_of tenant_id order_id max_bytes original_suffix chunks ≡ ok v
      → (v.content ≡ whole chunks)
        × (v.metadata.size ≡ length v.content)
        × (v.metadata.size ≤ max_bytes)
        × (v.metadata.sha256 ≡ digest_of v.content)
        × (((v.metadata.media_type ≡ "image/png") × (starts_with v.content png_signature ≡ true))
            ⊎ ((v.metadata.media_type ≡ "image/jpeg")
                × (starts_with v.content jpeg_signature ≡ true)))
  unfolding detect_image
  accepted_proof_is_image tenant_id order_id max_bytes original_suffix chunks v accepted =
      ground
        (arith, accepted, inspect_judges_whole tenant_id order_id max_bytes original_suffix chunks)
