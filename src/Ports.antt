-- ===== src/Ports.antt =====
-- src/delivery_service/ports.py: the repository that the application layer asks for, as a record of
-- operations over the state `S` of an adapter.
use innoprog_fastapi_deliver.Prelude.{ℕ, String, Option, List, Exec}
use innoprog_fastapi_deliver.Errors.{Error}
use innoprog_fastapi_deliver.Domain.{DeliveryOrder}
use innoprog_fastapi_deliver.Events.{OrderCreated, OrderStatusChanged}

-- The arguments of `list_visible`.
pub record VisibleQuery : Type 0 where
  pub role : String
  pub actor_id : ℕ
  pub tenant_id : ℕ
  pub limit : ℕ
  pub offset : ℕ
  pub sort : String
  pub status_filter : Option String

-- The arguments of `claim_next_created_order`, and the identifier that `uuid4()` gives its event.
pub record Claim : Type 0 where
  pub courier_id : ℕ
  pub tenant_id : ℕ
  pub occurred_at : ℕ
  pub correlation_id : String
  pub event_id : ℕ

pub record OrderRepository (S : Type 0) : Type 0 where
  pub add : DeliveryOrder → Exec S Error (Unit {0})
  pub get : ℕ → Exec S Error (Option DeliveryOrder)
  pub list : ℕ → ℕ → Exec S Error (List DeliveryOrder)
  pub list_visible : VisibleQuery → Exec S Error (List DeliveryOrder)
  pub save : DeliveryOrder → ℕ → Exec S Error (Unit {0})
  pub save_transition : DeliveryOrder → ℕ → OrderStatusChanged → Exec S Error (Unit {0})
  pub claim_next_created_order : Claim → Exec S Error (Option DeliveryOrder)
  pub idempotent_order : String → String → Exec S Error (Option DeliveryOrder)
  pub remember_idempotency : String → String → DeliveryOrder → Exec S Error (Unit {0})
  pub record_created_event : OrderCreated → Exec S Error (Unit {0})
