-- ===== src/ProofApi/Downloads.antt =====
-- What was uploaded can be downloaded.
use innoprog_fastapi_deliver.Prelude.{
  ℕ, ◌+◌, ◌*◌, ◌≤◌, ◌<◌, ◌≡◌, String, true, some, List, number_eq, text_eq, arith, ok, Result-cases,
  inl, inr,
}
use innoprog_fastapi_deliver.Runtime.{Runtime}
use innoprog_fastapi_deliver.Dict
use innoprog_fastapi_deliver.Dict.{get-put_self}
use innoprog_fastapi_deliver.Access.{Actor, can_access_order}
use innoprog_fastapi_deliver.Domain.{DeliveryOrder}
use innoprog_fastapi_deliver.Repository
use innoprog_fastapi_deliver.Repository.{Memory, memory_repository}
use innoprog_fastapi_deliver.Service
use innoprog_fastapi_deliver.OrderApi.{owns_order}
use innoprog_fastapi_deliver.ProofLinks.{
  Signing, ProofLinkSigner, SignedProofLink, issue_get, verify_get,
}
use innoprog_fastapi_deliver.ProofLinks.Lifetime.{issued_link_lives}
use innoprog_fastapi_deliver.Proofs.{
  Bytes, ValidatedProof, inspect_proof, put_private, get_private, detect_image,
}
use innoprog_fastapi_deliver.Proofs.Reading.{whole, inspect_judges_whole, accepted_proof_is_image}
use innoprog_fastapi_deliver.ProofApi.{
  ProofState, ProofSettings, Upload, ProofRead, add, find, upload_proof, download_proof,
  download_presigned_proof, key_eq,
}

tenant_lem :
    (actor : Actor) (order : DeliveryOrder)
    → owns_order actor order ≡ true
    → actor.tenant_id ≡ order.tenant_id
unfolding owns_order can_access_order
tenant_lem actor order h = ground (arith, h)

module _ (py : Runtime) (signing : Signing) (signer : ProofLinkSigner) (digest_of : Bytes → String)
    (settings : ProofSettings) where
  -- whom and what an accepted proof names
  named_lem :
      (tenant_id order_id max_bytes : ℕ) (original_suffix : String) (chunks : List Bytes)
      (v : ValidatedProof)
      → inspect_proof py digest_of tenant_id order_id max_bytes original_suffix chunks ≡ ok v
      → (v.metadata.tenant_id ≡ tenant_id) × (v.metadata.order_id ≡ order_id)
  unfolding detect_image
  named_lem tenant_id order_id max_bytes original_suffix chunks v accepted = ground (
    arith,
    accepted,
    inspect_judges_whole py digest_of tenant_id order_id max_bytes original_suffix chunks,
  )

  -- what an accepted upload leaves
  record IsStored (actor : Actor) (order_id : ℕ) (file : Upload) (now : ℕ) (s t : ProofState Memory)
      (answer : ProofRead) : Type 0 where
    validated : ValidatedProof
    inspected :
        inspect_proof py digest_of actor.tenant_id order_id settings.max_upload_bytes
          file.original_suffix file.chunks
        ≡ ok validated
    named : answer.proof ≡ validated.metadata
    left : t ≡ record s {
      objects = (put_private validated s.objects).1;
      metadata = add (put_private validated s.objects).0 s.metadata;
    }
    signed :
        issue_get signing signer validated.metadata.key now settings.proof_link_ttl_seconds
        ≡ ok answer.download

  upload-IsStored :
      (actor : Actor) (order_id : ℕ) (file : Upload) (now : ℕ) (s t : ProofState Memory)
      (current : DeliveryOrder) (answer : ProofRead)
      → Dict.get order_id s.orders.orders ≡ some current
      → upload_proof py
          (memory_repository py)
          signing
          signer
          digest_of
          settings
          actor
          order_id
          file
          now
          s
        ≡ (ok answer, t)
      → IsStored actor order_id file now s t answer × (owns_order actor current ≡ true)
  unfolding upload_proof Service.get Repository.get
  upload-IsStored actor order_id file now s t current answer found accepted =
      elim (Result-cases (
        inspect_proof py digest_of actor.tenant_id order_id settings.max_upload_bytes
          file.original_suffix file.chunks)) [
            | inr (e, refused) ↦ absurd (ground (arith, found, refused, accepted))
            | inl (v, inspected) ↦
                elim (Result-cases
                  (issue_get signing signer v.metadata.key now settings.proof_link_ttl_seconds)) [
                    | inr (e, refused) ↦
                        absurd (ground (arith, found, inspected, refused, accepted))
                    | inl (link, issued) ↦ (
                      record {
                        validated = v;
                        inspected = inspected;
                        named = ground (arith, found, inspected, issued, accepted);
                        left = ground (arith, found, inspected, issued, accepted);
                        signed = ground (arith, found, inspected, issued, accepted);
                      },
                      ground (arith, found, inspected, issued, accepted),
                    )
                  ]
          ]

  abbrev with_proof : ValidatedProof → ProofState Memory → ProofState Memory
  with_proof v s = record s {
    objects = (put_private v s.objects).1;
    metadata = add (put_private v s.objects).0 s.metadata;
  }

  downloads :
      (reader : Actor) (order_id : ℕ) (v : ValidatedProof) (s : ProofState Memory)
      (current : DeliveryOrder)
      → Dict.get order_id s.orders.orders ≡ some current
      → owns_order reader current ≡ true
      → v.metadata.tenant_id ≡ reader.tenant_id
      → v.metadata.order_id ≡ order_id
      → download_proof py (memory_repository py) reader order_id v.metadata.sha256 (with_proof v s)
        ≡ (ok (v.content, v.metadata.media_type), with_proof v s)
  unfolding download_proof Service.get Repository.get find add put_private get_private
  downloads reader order_id v s current found owns tenant order = ground (
    arith,
    found,
    owns,
    tenant,
    order,
    get-put_self (v.metadata.tenant_id, v.metadata.order_id, v.metadata.sha256) v.metadata
        s.metadata,
    get-put_self v.metadata.key (v.content, v.metadata.media_type) s.objects,
    text_eq.same_iff v.metadata.media_type v.metadata.media_type,
  )

  redeems :
      (v : ValidatedProof) (s : ProofState Memory) (key : String) (expires : ℕ) (signature : String)
      (now : ℕ)
      → key ≡ v.metadata.key
      → verify_get signing signer key expires signature now ≡ ok tt
      → download_presigned_proof py
          (memory_repository py)
          signing
          signer
          digest_of
          settings
          key
          expires
          signature
          now
          (with_proof v s)
        ≡ (ok (v.content, v.metadata.media_type), with_proof v s)
  unfolding download_presigned_proof put_private get_private
  redeems v s key expires signature now e valid =
      let found : get_private key (put_private v s.objects).1
          ≡ some (v.content, v.metadata.media_type) =
        rw e (get-put_self v.metadata.key (v.content, v.metadata.media_type) s.objects) in
      ground (arith, valid, found)

  link_key :
      (key : String) (now ttl : ℕ) (link : SignedProofLink)
      → issue_get signing signer key now ttl ≡ ok link
      → link.key ≡ key
  unfolding issue_get
  link_key key now ttl link issued = ground (arith, issued)

  -- If signatures have 64 characters, what an actor has uploaded for a stored order can be downloaded by
  -- every actor with access to the order, and with the link of the answer by anybody until the second
  -- of its expiry has passed: it is the uploaded body with the media type that the answer names.
  pub uploaded_proof_downloads :
      (actor reader : Actor) (order_id : ℕ) (file : Upload) (now later : ℕ)
      (s t : ProofState Memory) (current : DeliveryOrder) (answer : ProofRead)
      → ((secret text : String) → signing.len (signing.hmac_hexdigest secret text) ≡ 64)
      → Dict.get order_id s.orders.orders ≡ some current
      → owns_order reader current ≡ true
      → upload_proof py
          (memory_repository py)
          signing
          signer
          digest_of
          settings
          actor
          order_id
          file
          now
          s
        ≡ (ok answer, t)
      → now ≤ later
      → later < (answer.download.expires + 1) * 1000000
      → (download_proof py (memory_repository py) reader order_id answer.proof.sha256 t
          ≡ (ok (whole file.chunks, answer.proof.media_type), t))
        × (download_presigned_proof py
              (memory_repository py)
              signing
              signer
              digest_of
              settings
              answer.download.key
              answer.download.expires
              answer.download.signature
              later
              t
            ≡ (ok (whole file.chunks, answer.proof.media_type), t))
  uploaded_proof_downloads actor reader order_id file now later s t current answer sized found owns
        accepted order soon =
      let (h, allowed) =
        upload-IsStored actor order_id file now s t current answer found accepted in
      let (content, _, _, _, _) =
        accepted_proof_is_image py digest_of actor.tenant_id order_id settings.max_upload_bytes
          file.original_suffix file.chunks h.validated h.inspected in
      let (tenant, order_named) =
        named_lem actor.tenant_id order_id settings.max_upload_bytes file.original_suffix
          file.chunks h.validated h.inspected in
      let down =
        downloads reader order_id h.validated s current found owns
          (ground (arith, tenant, tenant_lem actor current allowed, tenant_lem reader current owns))
          order_named in
      let valid =
        (issued_link_lives signing signer h.validated.metadata.key now
            settings.proof_link_ttl_seconds later answer.download sized h.signed order).0
          soon in
      let redeemed =
        redeems h.validated s answer.download.key answer.download.expires answer.download.signature
          later
          (link_key h.validated.metadata.key now settings.proof_link_ttl_seconds answer.download
            h.signed)
          valid in
      rw (h.left, h.named, ← content) (down, redeemed)
