-- ===== src/Webhooks/Payloads.antt =====
-- When two payloads are equal.
use innoprog_fastapi_deliver.Prelude.{◌≡◌, ◌↔◌, true, [], ◌∷◌, number_eq, text_eq, arith}
use innoprog_fastapi_deliver.Runtime.{Json, Payload, text, number, null}
use innoprog_fastapi_deliver.Webhooks.{same_json, same_payload}

same_json_iff : (v w : Json) → (same_json v w ≡ true) ↔ (v ≡ w)
same_json_iff (text s) (text t) = ground (arith, text_eq.same_iff s t)
same_json_iff (text s) (number n) = ground arith
same_json_iff (text s) null = ground arith
same_json_iff (number m) (text t) = ground arith
same_json_iff (number m) (number n) = ground (arith, number_eq.same_iff m n)
same_json_iff (number m) null = ground arith
same_json_iff null (text t) = ground arith
same_json_iff null (number n) = ground arith
same_json_iff null null = ground arith

pub same_payload_iff : (p q : Payload) → (same_payload p q ≡ true) ↔ (p ≡ q)
same_payload_iff [] [] = ground arith
same_payload_iff [] ((j, w) ∷ q) = ground arith
same_payload_iff ((k, v) ∷ p) [] = ground arith
same_payload_iff ((k, v) ∷ p) ((j, w) ∷ q) =
    ground (arith, text_eq.same_iff k j, same_json_iff v w, same_payload_iff p q)
