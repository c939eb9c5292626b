-- ===== src/Webhooks.antt =====
-- src/delivery_service/webhooks.py, `verify_webhook_signature` of src/delivery_service/integrations.py,
-- `accept_payment_webhook_once` of src/delivery_service/outbox.py and the handler `payment_webhook` of
-- src/delivery_service/main.py. Times are microseconds, a request's body is its text.
pub mod Payloads
pub mod Inboxes
pub mod Requests
use Prim.Native.String.{◌++◌ as append}
use innoprog_fastapi_deliver.Prelude.{
  ℕ, ◌+◌, ◌-◌, ◌*◌, String, Bool, true, false, not, ◌&&◌, ◌||◌, Option, none, some, List, [], ◌∷◌,
  number_eq, text_eq, ◌==◌, ◌!=◌, is_none, leb, ltb, if◌then◌else◌, Exec, Result, ok, err, pure,
  raise, lift, gets, modify, raise_if, ◌>>=◌, ◌>>◌,
}
use innoprog_fastapi_deliver.Runtime.{Runtime, Json, Payload, text, number, null}
use innoprog_fastapi_deliver.Dict
use innoprog_fastapi_deliver.Dict.{Dict}
use innoprog_fastapi_deliver.Errors.{Error, http_exception, webhook_event_conflict, unlisted}
use innoprog_fastapi_deliver.Identity.{AuditEvent, record_event}
use innoprog_fastapi_deliver.Inbox.{ConsumerInboxRow}
use innoprog_fastapi_deliver.Outbox.{OutboxRow}

pub data ℤ : Type 0 where
  pos : ℕ → ℤ
  negsuc : ℕ → ℤ  -- -1 - n

-- PaymentWebhookEnvelope with its PaymentData
pub record PaymentWebhookEnvelope : Type 0 where
  pub id : ℕ
  pub type : String
  pub order_id : ℕ
  pub payment_id : String

-- What the handler takes from pydantic, `hmac` and Python's text.
pub record WebhookLibrary : Type 0 where
  pub int_of : String → Option ℤ  -- `int(value)`; `none` is ValueError
  pub content_length : String → Option ℕ  -- `int` of a text that `isdecimal`
  pub byte_len : String → ℕ
  pub len : String → ℕ
  pub fromhex : String → Option String
  pub is_ascii : String → Bool
  pub hmac_digest : String → String → String  -- of a secret and a message
  pub media_type : String → String  -- before ";", stripped and casefolded
  pub model_validate_json : String → Option PaymentWebhookEnvelope
  pub uuid_of : String → Option ℕ

pub record WebhookSettings : Type 0 where
  pub webhook_secret : String
  pub webhook_tolerance_seconds : ℕ
  pub webhook_max_bytes : ℕ

pub record WebhookRequest : Type 0 where
  pub event_id_header : String
  pub timestamp_header : String
  pub signature : String
  pub content_length : Option String
  pub content_type : String
  pub body : String
  pub network_key : String
  pub correlation_id : String

unfoldable pub durable_payload : Runtime → PaymentWebhookEnvelope → String → Payload
durable_payload py e raw_body =
    ("event_id", text (py.uuid_str e.id))
    ∷ ("event_type", text e.type)
    ∷ ("order_id", text (py.uuid_str e.order_id))
    ∷ ("payment_id", text e.payment_id)
    ∷ ("payload_sha256", text (py.sha256_hexdigest raw_body))
    ∷ []

-- `abs(current.timestamp() - timestamp) <= tolerance_seconds`, with the time in microseconds
abbrev pub is_within : ℕ → ℕ → ℤ → Bool
is_within now tolerance (pos t) =
    leb now ((t + tolerance) * 1000000) && leb (t * 1000000) (now + tolerance * 1000000)
is_within now tolerance (negsuc t) = leb (now + (t + 1) * 1000000) (tolerance * 1000000)

-- the equality of two values and of two payloads
abbrev pub same_json : Json → Json → Bool
same_json (text s) (text t) = s == t
same_json (number m) (number n) = m == n
same_json null null = true
same_json _ _ = false

abbrev pub same_payload : Payload → Payload → Bool
same_payload [] [] = true
same_payload ((k, v) ∷ p) ((j, w) ∷ q) = k == j && (same_json v w && same_payload p q)
same_payload _ _ = false

-- InMemoryWebhookInbox._records
abbrev pub Records : Type 0
Records = Dict ℕ Payload

-- InMemoryWebhookInbox.accept once the record was looked up
abbrev pub accept_found : ℕ → Payload → Option Payload → Exec Records Error Bool
accept_found event_id payload none s = (ok true, Dict.put event_id payload s)
accept_found event_id payload (some existing) s =
    if not (same_payload existing payload) then (err webhook_event_conflict, s) else (ok false, s)

unfoldable pub accept : ℕ → Payload → Exec Records Error Bool
accept event_id payload s = accept_found event_id payload (Dict.get event_id s) s

-- the tables `consumer_inbox` and `outbox`
pub record PaymentTables : Type 0 where
  pub inbox : Dict ℕ ConsumerInboxRow
  pub outbox : Dict ℕ OutboxRow

abbrev pub is_same_event : Payload → Option OutboxRow → Bool
is_same_event payload none = false
is_same_event payload (some row) =
    row.event_type == "payment.webhook.accepted" && same_payload row.payload payload

abbrev pub accepted_row : Payload → ℕ → OutboxRow
accepted_row payload now = record {
  event_type = "payment.webhook.accepted";
  payload = payload;
  legacy_processed_at = none;
  created_at = now;
  published_at = none;
}

-- The transaction. A second row with a primary key that the outbox has is an IntegrityError.
unfoldable pub accept_payment_webhook_once : ℕ → Payload → ℕ → Exec PaymentTables Error Bool
accept_payment_webhook_once event_id event_payload now s =
    if not (is_none (Dict.get event_id s.inbox))
    then (if is_same_event event_payload (Dict.get event_id s.outbox)
        then (ok false, s)
        else (err webhook_event_conflict, s))
    else if not (is_none (Dict.get event_id s.outbox))
    then (err (unlisted 0), s)
    else (
      ok true,
      record {
        inbox =
            Dict.put event_id (record { event_type = "payment.webhook"; processed_at = now })
              s.inbox;
        outbox = Dict.put event_id (accepted_row event_payload now) s.outbox;
      },
    )

-- the objects that the handler shares
pub record WebhookState : Type 0 where
  pub records : Records
  pub audit : List AuditEvent

module _ (py : Runtime) (lib : WebhookLibrary) (settings : WebhookSettings) where
  abbrev pub fresh_at : ℕ → Option ℤ → Bool
  fresh_at now none = false
  fresh_at now (some timestamp) = is_within now settings.webhook_tolerance_seconds timestamp

  unfoldable pub timestamp_is_fresh : String → ℕ → Bool
  timestamp_is_fresh value now = fresh_at now (lib.int_of value)

  abbrev pub signed_payload : String → String → String
  signed_payload timestamp payload =
      append "delivery.payment.v1\n" (append timestamp (append "\n" payload))

  abbrev pub digest_matches : String → String → Option String → Bool
  digest_matches payload timestamp none = false
  digest_matches payload timestamp (some supplied) =
      lib.is_ascii timestamp
      && lib.hmac_digest settings.webhook_secret (signed_payload timestamp payload) == supplied

  unfoldable pub verify_webhook_signature : String → String → String → Bool
  verify_webhook_signature payload signature timestamp =
      lib.len signature == 64 && digest_matches payload timestamp (lib.fromhex signature)

  abbrev pub announced_too_large : Option String → Bool
  announced_too_large none = false
  announced_too_large (some header) = elim (lib.content_length header) [
    | none ↦ false
    | some n ↦ ltb settings.webhook_max_bytes n
  ]

  abbrev pub parsed :
      Option PaymentWebhookEnvelope → Option ℕ → Result Error (PaymentWebhookEnvelope × ℕ)
  parsed (some envelope) (some event_id) = ok (envelope, event_id)
  parsed _ _ = err (http_exception 422 "invalid webhook payload")

  -- the checks of a request, up to the payload that is kept
  unfoldable pub checked_webhook : WebhookRequest → ℕ → Result Error (ℕ × Payload)
  checked_webhook r now =
      if announced_too_large r.content_length
      then err (http_exception 413 "webhook payload is too large")
      else if ltb settings.webhook_max_bytes (lib.byte_len r.body)
      then err (http_exception 413 "webhook payload is too large")
      else if not (verify_webhook_signature r.body r.signature r.timestamp_header)
      then err (http_exception 401 "invalid webhook signature")
      else if not (timestamp_is_fresh r.timestamp_header now)
      then err (http_exception 401 "invalid webhook signature")
      else if lib.media_type r.content_type != "application/json"
      then err (http_exception 415 "webhook requires application/json")
      else elim (parsed (lib.model_validate_json r.body) (lib.uuid_of r.event_id_header)) [
        | err e ↦ err e
        | ok (envelope, event_id) ↦
            if event_id != envelope.id
            then err (http_exception 422 "webhook event ID mismatch")
            else ok (event_id, durable_payload py envelope r.body)
      ]

  -- `except WebhookEventConflict`
  abbrev pub conflict_as_409 : {A : Type 0} → Result Error A → Result Error A
  conflict_as_409 (ok a) = ok a
  conflict_as_409 (err webhook_event_conflict) =
      err (http_exception 409 "webhook event ID conflict")
  conflict_as_409 (err e) = err e

  abbrev pub on_records : Exec Records Error Bool → Exec WebhookState Error Bool
  on_records m s =
      let (r, records) = m s.records in (conflict_as_409 r, record s { records = records })

  abbrev pub outcome_of : Bool → String
  outcome_of applied = if applied then "accepted" else "duplicate"

  -- over the in-memory inbox
  unfoldable pub payment_webhook : WebhookRequest → ℕ → Exec WebhookState Error String
  payment_webhook r now = do
    (event_id, payload) ← lift (checked_webhook r now)
    applied ← on_records (accept event_id payload)
    modify (λ s. record s {
      audit =
          record_event
            (record {
              actor_id = some "payment-provider";
              subject_fingerprint = py.sha256_hexdigest "payment-provider";
              action = "payment_webhook";
              resource_id = some (py.uuid_str event_id);
              outcome = outcome_of applied;
              reason_code = "signature_verified";
              client_network_key = r.network_key;
              correlation_id = r.correlation_id;
            })
            s.audit;
    })
    pure (outcome_of applied)
