-- ===== src/ProofApi.antt =====
-- src/delivery_service/main.py: the handlers of proofs, with `InMemoryProofMetadataRepository` of
-- src/delivery_service/storage.py, over any repository of orders. An answer is its content; the headers
-- are left out.
pub mod Downloads
use innoprog_fastapi_deliver.Prelude.{
  ℕ, String, Bool, true, false, not, ◌&&◌, Option, none, some, List, [], ◌↔◌, ◌≡◌, number_eq,
  text_eq, HasEquality, ◌==◌, ◌!=◌, if◌then◌else◌, arith, Exec, Result, ok, err, pure, raise, lift,
  gets, modify, raise_if, ◌>>=◌, ◌>>◌,
}
use innoprog_fastapi_deliver.Runtime.{Runtime}
use innoprog_fastapi_deliver.Dict
use innoprog_fastapi_deliver.Dict.{Dict}
use innoprog_fastapi_deliver.Errors.{Error, http_exception, invalid_proof_link}
use innoprog_fastapi_deliver.Access.{Actor}
use innoprog_fastapi_deliver.Domain.{DeliveryOrder}
use innoprog_fastapi_deliver.Ports.{OrderRepository}
use innoprog_fastapi_deliver.Service
use innoprog_fastapi_deliver.OrderApi.{owns_order, access_denied}
use innoprog_fastapi_deliver.ProofLinks.{
  Signing, ProofLinkSigner, SignedProofLink, issue_get, verify_get,
}
use innoprog_fastapi_deliver.Proofs.{
  Bytes, StoredProof, ValidatedProof, Objects, inspect_proof, put_private, get_private,
}

-- the keys of the metadata: tenant, order and digest
abbrev pub ProofKey : Type 0
ProofKey = ℕ × ℕ × String

abbrev pub same_key : ProofKey → ProofKey → Bool
same_key (t, o, d) (t', o', d') = t == t' && (o == o' && d == d')

pub same_key_iff : (x y : ProofKey) → (same_key x y ≡ true) ↔ (x ≡ y)
same_key_iff (t, o, d) (t', o', d') = ground (arith, text_eq.same_iff d d')

instance abbrev pub key_eq : HasEquality ProofKey
key_eq = record { same = same_key; same_iff = same_key_iff }

-- InMemoryProofMetadataRepository._records
abbrev pub Metadata : Type 0
Metadata = Dict ProofKey StoredProof

unfoldable pub add : StoredProof → Metadata → Metadata
add proof records = Dict.put (proof.tenant_id, proof.order_id, proof.sha256) proof records

unfoldable pub find : ℕ → ℕ → String → Metadata → Option StoredProof
find tenant_id order_id sha256 records = Dict.get (tenant_id, order_id, sha256) records

pub record ProofState (S : Type 0) : Type 0 where
  pub orders : S
  pub objects : Objects
  pub metadata : Metadata

-- the fields of config.Settings that proofs use
pub record ProofSettings : Type 0 where
  pub max_upload_bytes : ℕ
  pub proof_link_ttl_seconds : ℕ

pub record Upload : Type 0 where
  pub original_suffix : String
  pub chunks : List Bytes
  pub proof_kind : String

pub record ProofRead : Type 0 where
  pub proof : StoredProof
  pub proof_kind : String
  pub download : SignedProofLink

module _ {S : Type 0} (py : Runtime) (repo : OrderRepository S) where
  abbrev pub on_orders : {A : Type 0} → Exec S Error A → Exec (ProofState S) Error A
  on_orders m s = let (r, orders) = m s.orders in (r, record s { orders = orders })

  -- the order, for an actor with access to it
  abbrev pub own_order : Actor → ℕ → Exec (ProofState S) Error (Unit {0})
  own_order actor order_id = do
    order ← on_orders (Service.get py repo order_id)
    raise_if (not (owns_order actor order)) access_denied

  abbrev pub or_404 : {A : Type 0} → String → Option A → Result Error A
  or_404 detail none = err (http_exception 404 detail)
  or_404 detail (some a) = ok a

  -- the body and the media type
  unfoldable pub download_proof : Actor → ℕ → String → Exec (ProofState S) Error (Bytes × String)
  download_proof actor order_id sha256 = do
    own_order actor order_id
    found ← gets (λ s. find actor.tenant_id order_id sha256 s.metadata)
    proof ← lift (or_404 "proof not found" found)
    object ← gets (λ s. get_private proof.key s.objects)
    (content, media_type) ← lift (or_404 "proof object not found" object)
    raise_if (media_type != proof.media_type) (http_exception 500 "proof metadata mismatch")
    pure (content, proof.media_type)

  module _ (signing : Signing) (signer : ProofLinkSigner) (digest_of : Bytes → String)
      (settings : ProofSettings) where
    unfoldable pub upload_proof : Actor → ℕ → Upload → ℕ → Exec (ProofState S) Error ProofRead
    upload_proof actor order_id file now = do
      own_order actor order_id
      validated ← lift (
          inspect_proof py digest_of actor.tenant_id order_id settings.max_upload_bytes
            file.original_suffix file.chunks)
      modify (λ s. record s {
        objects = (put_private validated s.objects).1;
        metadata = add (put_private validated s.objects).0 s.metadata;
      })
      signed ←
          lift (issue_get signing signer validated.metadata.key now settings.proof_link_ttl_seconds)
      pure (record { proof = validated.metadata; proof_kind = file.proof_kind; download = signed })

    -- `except InvalidProofLink`
    abbrev pub refused_as_403 : Result Error (Unit {0}) → Result Error (Unit {0})
    refused_as_403 (ok u) = ok u
    refused_as_403 (err (invalid_proof_link _)) =
        err (http_exception 403 "invalid or expired proof link")
    refused_as_403 (err e) = err e

    unfoldable pub download_presigned_proof :
        String → ℕ → String → ℕ → Exec (ProofState S) Error (Bytes × String)
    download_presigned_proof key expires signature now = do
      lift (refused_as_403 (verify_get signing signer key expires signature now))
      object ← gets (λ s. get_private key s.objects)
      lift (or_404 "proof object not found" object)
