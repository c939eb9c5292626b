-- ===== src/Tests/Payments.antt =====
-- Payment webhooks at concrete inputs.
use Prim.Native.String.{len}
use innoprog_fastapi_deliver.Prelude.{
  ℕ, ◌≡◌, ◌⊎◌, refl, String, true, false, none, some, List, [], ◌∷◌, ok, err, number_eq, text_eq,
}
use innoprog_fastapi_deliver.Runtime.{text}
use innoprog_fastapi_deliver.Dict
use innoprog_fastapi_deliver.Errors.{Error, http_exception, webhook_event_conflict}
use innoprog_fastapi_deliver.Webhooks.{
  WebhookLibrary, WebhookSettings, WebhookRequest, WebhookState, PaymentTables, payment_webhook,
  pos, accept, accept_payment_webhook_once, checked_webhook, verify_webhook_signature,
  timestamp_is_fresh, durable_payload,
}
use innoprog_fastapi_deliver.Webhooks.Inboxes.{
  Delivery, accept_all, accept_all_once, payment_inboxes_agree,
}
use innoprog_fastapi_deliver.Webhooks.Requests.{IsDue, IsApplied, webhook_outcome}
use innoprog_fastapi_deliver.Tests.Data.{plain}

opened : Unit {0}
unfolding payment_webhook checked_webhook verify_webhook_signature timestamp_is_fresh
    durable_payload accept accept_payment_webhook_once Dict.get Dict.put
opened = tt

abbrev library : WebhookLibrary
library = record {
  int_of = λ t. some (pos 100);
  content_length = λ t. none;
  byte_len = len;
  len = λ t. 64;
  fromhex = λ t. some t;
  is_ascii = λ t. true;
  hmac_digest = λ secret message. message;
  media_type = λ t. t;
  model_validate_json =
      λ t. some (record { id = 7; type = "payment.completed"; order_id = 8; payment_id = t });
  uuid_of = λ t. some 7;
}

abbrev settings : WebhookSettings
settings = record {
  webhook_secret = "secret";
  webhook_tolerance_seconds = 30;
  webhook_max_bytes = 1024;
}

abbrev paid : WebhookRequest
paid = record {
  event_id_header = "7";
  timestamp_header = "100";
  signature = "delivery.payment.v1\n100\npaid";
  content_length = none;
  content_type = "application/json";
  body = "paid";
  network_key = "net";
  correlation_id = "web";
}

abbrev untouched : WebhookState
untouched = record { records = []; audit = [] }

abbrev moment : ℕ
moment = 110000000

abbrev once_paid : WebhookState
once_paid = (payment_webhook plain library settings paid moment untouched).1

webhook_outcome_example :
    ((e : Error) × (payment_webhook plain library settings paid moment untouched
        ≡ (err e, untouched))
      × (¬ IsDue plain library settings paid moment untouched))
    ⊎ ((answer : String) × ((payment_webhook plain library settings paid moment untouched).0
          ≡ ok answer)
        × IsApplied plain library settings paid moment untouched once_paid answer)
webhook_outcome_example = webhook_outcome plain library settings paid moment untouched

first_time : (payment_webhook plain library settings paid moment untouched).0 ≡ ok "accepted"
unfolding opened
first_time = refl

second_time : (payment_webhook plain library settings paid moment once_paid).0 ≡ ok "duplicate"
unfolding opened
second_time = refl

too_late :
    payment_webhook plain library settings paid 130000001 untouched
    ≡ (err (http_exception 401 "invalid webhook signature"), untouched)
unfolding opened
too_late = refl

forged :
    payment_webhook plain library settings (record paid { body = "free" }) moment untouched
    ≡ (err (http_exception 401 "invalid webhook signature"), untouched)
unfolding opened
forged = refl

abbrev deliveries : List Delivery
deliveries =
    (7, ("payment_id", text "a") ∷ [], 1)
    ∷ (7, ("payment_id", text "a") ∷ [], 2)
    ∷ (7, ("payment_id", text "b") ∷ [], 3)
    ∷ []

abbrev no_rows : PaymentTables
no_rows = record { inbox = []; outbox = [] }

payment_inboxes_agree_example : accept_all_once deliveries no_rows ≡ accept_all deliveries []
unfolding Dict.get
payment_inboxes_agree_example =
    payment_inboxes_agree deliveries [] no_rows (λ i. (refl, refl, refl))

answers : accept_all deliveries [] ≡ ok true ∷ ok false ∷ err webhook_event_conflict ∷ []
unfolding opened
answers = refl
