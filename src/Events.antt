-- ===== src/Events.antt =====
-- src/delivery_service/events.py: the domain facts and their integration payloads. `uuid4()` is the
-- argument `event_id`.
use innoprog_fastapi_deliver.Prelude.{
  ℕ, ◌+◌, String, [], ◌∷◌, ◌||◌, number_eq, ◌==◌, ◌!=◌, Result, ok, err, if◌then◌else◌,
}
use innoprog_fastapi_deliver.Runtime.{Runtime, Payload, text, number}
use innoprog_fastapi_deliver.Status.{OrderStatus, status_eq, status_value}
use innoprog_fastapi_deliver.Errors.{Error, value_error}
use innoprog_fastapi_deliver.Domain.{DeliveryOrder}

pub record OrderCreated : Type 0 where
  pub event_id : ℕ
  pub order_id : ℕ
  pub customer_id : ℕ
  pub tenant_id : ℕ
  pub occurred_at : ℕ
  pub order_version : ℕ

-- OrderCreated.from_order
abbrev pub from_order : ℕ → DeliveryOrder → OrderCreated
from_order event_id order = record {
  event_id = event_id;
  order_id = order.id;
  customer_id = order.customer_id;
  tenant_id = order.tenant_id;
  occurred_at = order.created_at;
  order_version = order.version;
}

-- OrderCreated.integration_payload
unfoldable pub created_payload : Runtime → OrderCreated → Payload
created_payload py e =
    ("schema_version", number 1)
    ∷ ("event_id", text (py.uuid_str e.event_id))
    ∷ ("event_type", text "order.created")
    ∷ ("aggregate_id", text (py.uuid_str e.order_id))
    ∷ ("aggregate_version", number e.order_version)
    ∷ ("tenant_id", text (py.uuid_str e.tenant_id))
    ∷ ("customer_id", text (py.uuid_str e.customer_id))
    ∷ ("occurred_at", text (py.isoformat e.occurred_at))
    ∷ []

pub record OrderStatusChanged : Type 0 where
  pub event_id : ℕ
  pub order_id : ℕ
  pub tenant_id : ℕ
  pub from_status : OrderStatus
  pub to_status : OrderStatus
  pub order_version : ℕ
  pub actor_id : ℕ
  pub actor_role : String
  pub occurred_at : ℕ
  pub correlation_id : String

-- OrderStatusChanged.from_transition
unfoldable pub from_transition :
    ℕ → DeliveryOrder → DeliveryOrder → ℕ → String → ℕ → String → Result Error OrderStatusChanged
from_transition event_id before after actor_id actor_role occurred_at correlation_id =
    if before.id != after.id || after.version != before.version + 1
    then err (value_error "transition event requires one aggregate version step")
    else if before.status == after.status
    then err (value_error "transition event requires a changed status")
    else ok (record {
      event_id = event_id;
      order_id = after.id;
      tenant_id = after.tenant_id;
      from_status = before.status;
      to_status = after.status;
      order_version = after.version;
      actor_id = actor_id;
      actor_role = actor_role;
      occurred_at = occurred_at;
      correlation_id = correlation_id;
    })

-- OrderStatusChanged.integration_payload
unfoldable pub status_changed_payload : Runtime → OrderStatusChanged → Payload
status_changed_payload py e =
    ("schema_version", number 1)
    ∷ ("event_id", text (py.uuid_str e.event_id))
    ∷ ("event_type", text "order.status_changed")
    ∷ ("aggregate_id", text (py.uuid_str e.order_id))
    ∷ ("aggregate_version", number e.order_version)
    ∷ ("tenant_id", text (py.uuid_str e.tenant_id))
    ∷ ("from_status", text (status_value e.from_status))
    ∷ ("to_status", text (status_value e.to_status))
    ∷ ("actor_id", text (py.uuid_str e.actor_id))
    ∷ ("actor_role", text e.actor_role)
    ∷ ("occurred_at", text (py.isoformat e.occurred_at))
    ∷ ("correlation_id", text e.correlation_id)
    ∷ []
