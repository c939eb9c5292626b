-- ===== src/Proofs.antt =====
-- src/delivery_service/storage.py: `inspect_proof` and the in-memory storage of proofs. A byte is a
-- number; an upload is the chunks that `file.read` returns. The digest and the file name's suffix are
-- arguments.
pub mod Reading
use Prim.Native.String.{◌++◌ as append}
use innoprog_fastapi_deliver.Prelude.{
  ℕ, ◌+◌, String, Bool, true, false, not, ◌&&◌, ◌||◌, Option, List, [], ◌∷◌, ◌++◌, number_eq,
  text_eq, ◌==◌, ◌!=◌, ltb, if◌then◌else◌, length, Result, ok, err,
}
use innoprog_fastapi_deliver.Runtime.{Runtime}
use innoprog_fastapi_deliver.Dict
use innoprog_fastapi_deliver.Dict.{Dict}
use innoprog_fastapi_deliver.Errors.{Error, invalid_upload, upload_too_large}

abbrev pub Bytes : Type 0
Bytes = List ℕ

abbrev pub png_signature : Bytes
png_signature = 137 ∷ 80 ∷ 78 ∷ 71 ∷ 13 ∷ 10 ∷ 26 ∷ 10 ∷ []

abbrev pub jpeg_signature : Bytes
jpeg_signature = 255 ∷ 216 ∷ 255 ∷ []

pub record StoredProof : Type 0 where
  pub key : String
  pub tenant_id : ℕ
  pub order_id : ℕ
  pub media_type : String
  pub size : ℕ
  pub sha256 : String

pub record ValidatedProof : Type 0 where
  pub metadata : StoredProof
  pub content : Bytes

-- `body.startswith(prefix)`
unfoldable pub starts_with : Bytes → Bytes → Bool
starts_with body [] = true
starts_with [] (p ∷ ps) = false
starts_with (b ∷ bs) (p ∷ ps) = let rest = starts_with bs ps in if b == p then rest else false

unfoldable pub detect_image : Bytes → Result Error (String × String)
detect_image body =
    if starts_with body png_signature
    then ok ("image/png", ".png")
    else if starts_with body jpeg_signature
    then ok ("image/jpeg", ".jpg")
    else err (invalid_upload "proof is not a supported PNG or JPEG image")

abbrev pub prepend : Bytes → Result Error (Bytes × ℕ) → Result Error (Bytes × ℕ)
prepend chunk (ok (body, size)) = ok (chunk ++ body, size)
prepend chunk (err e) = err e

-- `while chunk := await file.read(READ_CHUNK_SIZE)`, then `b"".join(chunks)`; with the final
-- `size`
unfoldable pub read_all : ℕ → ℕ → List Bytes → Result Error (Bytes × ℕ)
read_all max_bytes size [] = ok ([], size)
read_all max_bytes size ([] ∷ chunks) = ok ([], size)
read_all max_bytes size ((b ∷ bs) ∷ chunks) =
    let rest = read_all max_bytes (size + length (b ∷ bs)) chunks in
    if ltb max_bytes (size + length (b ∷ bs))
    then err (upload_too_large "proof exceeds configured size limit")
    else prepend (b ∷ bs) rest

-- `original_suffix and original_suffix not in expected_suffixes`
abbrev pub is_mismatch : String → String → Bool
is_mismatch original_suffix suffix =
    original_suffix != ""
    && not (
        if suffix == ".png"
        then original_suffix == ".png"
        else original_suffix == ".jpg" || original_suffix == ".jpeg")

module _ (py : Runtime) (digest_of : Bytes → String) where
  abbrev pub validated : ℕ → ℕ → String → String → Bytes → ℕ → ValidatedProof
  validated tenant_id order_id media_type suffix body size = record {
    metadata = record {
      key = append "proofs/" (
          append (py.uuid_str tenant_id) (
            append "/"
              (append (py.uuid_str order_id) (append "/" (append (digest_of body) suffix)))));
      tenant_id = tenant_id;
      order_id = order_id;
      media_type = media_type;
      size = size;
      sha256 = digest_of body;
    };
    content = body;
  }

  abbrev pub checked :
      ℕ → ℕ → String → Bytes → ℕ → Result Error (String × String) → Result Error ValidatedProof
  checked tenant_id order_id original_suffix body size (err e) = err e
  checked tenant_id order_id original_suffix body size (ok (media_type, suffix)) =
      if is_mismatch original_suffix suffix
      then err (invalid_upload "filename extension does not match detected image type")
      else ok (validated tenant_id order_id media_type suffix body size)

  abbrev pub inspected : ℕ → ℕ → String → Result Error (Bytes × ℕ) → Result Error ValidatedProof
  inspected tenant_id order_id original_suffix (err e) = err e
  inspected tenant_id order_id original_suffix (ok (body, size)) =
      checked tenant_id order_id original_suffix body size (detect_image body)

  unfoldable pub inspect_proof : ℕ → ℕ → ℕ → String → List Bytes → Result Error ValidatedProof
  inspect_proof tenant_id order_id max_bytes original_suffix chunks =
      inspected tenant_id order_id original_suffix (read_all max_bytes 0 chunks)

-- InMemoryProofStorage
abbrev pub Objects : Type 0
Objects = Dict String (Bytes × String)

unfoldable pub put_private : ValidatedProof → Objects → StoredProof × Objects
put_private proof objects =
    (proof.metadata, Dict.put proof.metadata.key (proof.content, proof.metadata.media_type) objects)

unfoldable pub get_private : String → Objects → Option (Bytes × String)
get_private key objects = Dict.get key objects
