-- ===== src/Errors.antt =====
-- The exceptions that the modules raise, each with what its handlers read of it.
use innoprog_fastapi_deliver.Prelude.{ℕ, String}
use innoprog_fastapi_deliver.Status.{OrderStatus}

pub data Error : Type 0 where
  value_error : String → Error  -- `ValueError`
  runtime_error : String → Error  -- `RuntimeError`
  key_error : String → Error  -- `KeyError`
  assertion_error : Error  -- `AssertionError`
  index_error : Error  -- `IndexError`
  invalid_transition : OrderStatus → OrderStatus → Error  -- domain.InvalidTransition
  concurrent_update : Error  -- ports.ConcurrentUpdate
  idempotency_conflict : Error  -- ports.IdempotencyConflict
  courier_already_busy : Error  -- ports.CourierAlreadyBusy
  order_not_found : ℕ → Error  -- service.OrderNotFound
  webhook_event_conflict : Error  -- outbox.WebhookEventConflict
  circuit_open : String → Error  -- retry_policy.CircuitOpenError
  invalid_proof_link : String → Error  -- storage.InvalidProofLink
  invalid_upload : String → Error  -- storage.InvalidUpload
  upload_too_large : String → Error  -- storage.UploadTooLarge
  cancelled_error : Error  -- `asyncio.CancelledError`
  route_service_unavailable : String → Error  -- integrations.RouteServiceUnavailable
  invalid_route_response : Error  -- integrations.InvalidRouteResponse
  route_request_rejected : Error  -- integrations.RouteRequestRejected
  unlisted : ℕ → Error  -- any exception that a handler does not name
  http_exception : ℕ → String → Error  -- `HTTPException`: its status code and detail
