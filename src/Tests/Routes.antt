-- ===== src/Tests/Routes.antt =====
-- The handlers of proofs and of positions at concrete inputs.
use innoprog_fastapi_deliver.Prelude.{
  ℕ, ◌≡◌, ◌⊎◌, refl, String, true, some, [], ◌∷◌, arith, ok, err, length, Option, Result,
}
use innoprog_fastapi_deliver.Dict
use innoprog_fastapi_deliver.Errors.{Error, http_exception}
use innoprog_fastapi_deliver.Access.{Actor, courier, can_access_order}
use innoprog_fastapi_deliver.Status.{assigned, delivered}
use innoprog_fastapi_deliver.Domain.{DeliveryOrder}
use innoprog_fastapi_deliver.Repository
use innoprog_fastapi_deliver.Repository.{Memory, memory_repository, empty}
use innoprog_fastapi_deliver.Service
use innoprog_fastapi_deliver.OrderApi.{owns_order}
use innoprog_fastapi_deliver.ProofLinks.{Signing, ProofLinkSigner, issue_get, verify_get, message}
use innoprog_fastapi_deliver.Proofs.{
  Bytes, starts_with, detect_image, read_all, inspect_proof, put_private, get_private,
  png_signature,
}
use innoprog_fastapi_deliver.Proofs.Reading.{whole}
use innoprog_fastapi_deliver.ProofApi.{
  ProofState, ProofSettings, Upload, ProofRead, add, find, upload_proof, download_proof,
  download_presigned_proof,
}
use innoprog_fastapi_deliver.ProofApi.Downloads.{uploaded_proof_downloads}
use innoprog_fastapi_deliver.Tracking.{
  TrackingSnapshot, TrackingEvent, no_snapshots, record_position, event,
}
use innoprog_fastapi_deliver.TrackingApi.{TrackingUpdate, TrackingState, record_tracking_position}
use innoprog_fastapi_deliver.TrackingApi.Couriers.{IsTold, MayTell, position_outcome}
use innoprog_fastapi_deliver.Tests.Data.{plain, new_parcel, buyer, tally}

opened : Unit {0}
unfolding issue_get verify_get message starts_with detect_image read_all inspect_proof put_private
    get_private add find upload_proof download_proof download_presigned_proof owns_order
    can_access_order Service.get Repository.get Dict.get Dict.put record_position
    record_tracking_position event
opened = tt

abbrev carried : DeliveryOrder
carried = record new_parcel { status = assigned; courier_id = some 9; version = 2 }

abbrev orders : Memory
orders = record empty { orders = (7, carried) ∷ [] }

abbrev rider : Actor
rider = record { user_id = 9; role = courier; tenant_id = 1 }

abbrev signing : Signing
signing = record {
  hmac_hexdigest = λ secret text. text;
  matches_proof_key = λ key. true;
  int_str = tally;
  len = λ text. 64;
}

abbrev signer : ProofLinkSigner
signer = record { secret = "secret"; max_ttl_seconds = 900 }

abbrev settings : ProofSettings
settings = record { max_upload_bytes = 100; proof_link_ttl_seconds = 2 }

abbrev photo : Upload
photo = record {
  original_suffix = ".png";
  chunks = png_signature ∷ (1 ∷ 2 ∷ []) ∷ [];
  proof_kind = "delivery";
}

abbrev digest_of : Bytes → String
digest_of body = tally (length body)

abbrev before : ProofState Memory
before = record { orders = orders; objects = []; metadata = [] }

abbrev key : String
key = "proofs/i./iiiiiii./iiiiiiiiii..png"

abbrev answer : ProofRead
answer = record {
  proof = record {
    key = key;
    tenant_id = 1;
    order_id = 7;
    media_type = "image/png";
    size = 10;
    sha256 = "iiiiiiiiii.";
  };
  proof_kind = "delivery";
  download = record {
    key = key;
    expires = 3;
    signature = "delivery.proof.v1\nGET\nproofs/i./iiiiiii./iiiiiiiiii..png\niii.";
    expires_at = 3500000;
  };
}

abbrev after : ProofState Memory
after =
    (upload_proof plain (memory_repository plain) signing signer digest_of settings rider 7 photo
      1500000 before).1

uploads :
    upload_proof plain
      (memory_repository plain)
      signing
      signer
      digest_of
      settings
      rider
      7
      photo
      1500000
      before
    ≡ (ok answer, after)
unfolding opened
uploads = refl

uploaded_proof_downloads_example :
    (download_proof plain (memory_repository plain) buyer 7 "iiiiiiiiii." after
      ≡ (ok (whole photo.chunks, "image/png"), after))
    × (download_presigned_proof plain
          (memory_repository plain)
          signing
          signer
          digest_of
          settings
          key
          3
          answer.download.signature
          3000000
          after
        ≡ (ok (whole photo.chunks, "image/png"), after))
unfolding opened
uploaded_proof_downloads_example =
    uploaded_proof_downloads plain signing signer digest_of settings rider buyer 7 photo 1500000
      3000000 before after carried answer (λ secret text. refl) refl refl uploads (omega arith)
      (omega arith)

abbrev moved_to : ℕ → TrackingUpdate ℕ
moved_to n = record { latitude = n; longitude = n; client_event_id = n }

abbrev map : TrackingState ℕ Memory
map = record { orders = orders; snapshots = no_snapshots ℕ }

abbrev moved : Result Error (TrackingSnapshot ℕ × Option (TrackingEvent ℕ)) × TrackingState ℕ Memory
moved = record_tracking_position ℕ plain (memory_repository plain) rider 7 (moved_to 5) 200 map

position_outcome_example :
    ((e : Error) × (moved ≡ (err e, map)) × (¬ MayTell ℕ plain rider carried (moved_to 5) map))
    ⊎ ((snapshot : TrackingSnapshot ℕ) × (told : Option (TrackingEvent ℕ)) × (moved.0
          ≡ ok (snapshot, told))
        × IsTold ℕ plain rider carried (moved_to 5) map moved.1 snapshot told 200)
unfolding opened
position_outcome_example = position_outcome ℕ plain rider 7 (moved_to 5) 200 map carried refl

-- A customer cannot move an order, and a courier cannot move a delivered one.
not_by_customer :
    record_tracking_position ℕ plain (memory_repository plain) buyer 7 (moved_to 5) 200 map
    ≡ (err (http_exception 403 "tracking access denied"), map)
unfolding opened
not_by_customer = refl

abbrev later_map : TrackingState ℕ Memory
later_map = record map {
  orders = record empty { orders = (7, record carried { status = delivered }) ∷ [] };
}

not_delivered :
    record_tracking_position ℕ plain (memory_repository plain) rider 7 (moved_to 5) 200 later_map
    ≡ (err (http_exception 409 "tracking is not active for this order"), later_map)
unfolding opened
not_delivered = refl
