-- ===== src/ErrorContract.antt =====
-- src/delivery_service/error_contract.py: the public description of each failure, and the exception
-- handlers of src/delivery_service/main.py that choose it.
use innoprog_fastapi_deliver.Prelude.{ℕ, String, none, some, Option, [], ◌∷◌, number_eq}
use innoprog_fastapi_deliver.Dict
use innoprog_fastapi_deliver.Dict.{Dict}
use innoprog_fastapi_deliver.Errors.{
  Error, invalid_transition, concurrent_update, idempotency_conflict, courier_already_busy,
  order_not_found, invalid_upload, upload_too_large, http_exception,
}

pub record ErrorSpec : Type 0 where
  pub status_code : ℕ
  pub error_code : String
  pub message : String

abbrev pub spec : ℕ → String → String → ErrorSpec
spec status_code error_code message = record {
  status_code = status_code;
  error_code = error_code;
  message = message;
}

abbrev pub internal_error : ErrorSpec
internal_error = spec 500 "internal_error" "The service could not complete the request"

-- HTTP_ERROR_SPECS
unfoldable pub http_error_specs : Dict ℕ ErrorSpec
http_error_specs =
    (400, spec 400 "request_invalid" "Request could not be understood")
    ∷ (401, spec 401 "authentication_required" "Authentication is required")
    ∷ (403, spec 403 "access_denied" "Access is denied")
    ∷ (404, spec 404 "resource_not_found" "Resource was not found")
    ∷ (405, spec 405 "method_not_allowed" "Method is not allowed for this resource")
    ∷ (409, spec 409 "request_conflict" "Request conflicts with current state")
    ∷ (413, spec 413 "payload_too_large" "Request payload is too large")
    ∷ (429, spec 429 "rate_limited" "Too many requests")
    ∷ (503, spec 503 "service_unavailable" "Service is temporarily unavailable")
    ∷ []

abbrev pub known : ℕ → Option ErrorSpec → ErrorSpec
known status_code none = spec status_code "http_error" "Request could not be completed"
known status_code (some s) = s

-- the handler of each exception; the last one is that of `Exception`
unfoldable pub handler : Error → ErrorSpec
handler (order_not_found _) = spec 404 "order_not_found" "Order was not found"
handler (invalid_upload _) = spec 415 "invalid_proof" "Proof file is not supported"
handler (upload_too_large _) = spec 413 "payload_too_large" "Proof file exceeds the size limit"
handler concurrent_update = spec 409 "concurrent_update" "Order was changed by another request"
handler courier_already_busy =
    spec 409 "courier_already_busy" "Courier already has an active assignment"
handler idempotency_conflict =
    spec 409 "idempotency_conflict" "Idempotency-Key was already used for another request"
handler (invalid_transition _ _) = spec 409 "invalid_transition" "Order transition is not allowed"
handler (http_exception status_code _) = known status_code (Dict.get status_code http_error_specs)
handler _ = internal_error
