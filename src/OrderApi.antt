-- ===== src/OrderApi.antt =====
-- src/delivery_service/main.py: the handlers of orders, over any repository. The actor is the one that
-- `current_actor` returned; path, query and body have passed the schemas.
pub mod Authority
pub mod Statuses
use Prim.Native.String.{◌++◌ as append}
use innoprog_fastapi_deliver.Prelude.{
  ℕ, String, Bool, true, false, not, ◌&&◌, ◌||◌, Option, none, some, List, [], ◌∷◌, map, number_eq,
  ◌==◌, ◌!=◌, if◌then◌else◌, Exec, pure, raise_if, ◌>>=◌, ◌>>◌,
}
use innoprog_fastapi_deliver.Runtime.{Runtime}
use innoprog_fastapi_deliver.Errors.{Error, http_exception}
use innoprog_fastapi_deliver.Access.{
  Actor, Role, customer, courier, role_eq, role_value, can_access_order,
}
use innoprog_fastapi_deliver.Status.{OrderStatus, cancelled, status_eq, status_value}
use innoprog_fastapi_deliver.Domain.{DeliveryOrder}
use innoprog_fastapi_deliver.Commands.{CreateOrderCommand, UpdateOrderCommand}
use innoprog_fastapi_deliver.Ports.{OrderRepository}
use innoprog_fastapi_deliver.Service
use innoprog_fastapi_deliver.Service.{Fresh}

-- schemas.OrderRead
pub record OrderRead : Type 0 where
  pub id : ℕ
  pub customer_id : ℕ
  pub pickup_address : String
  pub destination_address : String
  pub weight_grams : ℕ
  pub status : OrderStatus
  pub courier_id : Option ℕ
  pub version : ℕ
  pub created_at : ℕ

-- OrderRead.model_validate
abbrev pub order_read : DeliveryOrder → OrderRead
order_read order = record {
  id = order.id;
  customer_id = order.customer_id;
  pickup_address = order.pickup_address;
  destination_address = order.destination_address;
  weight_grams = order.weight_grams;
  status = order.status;
  courier_id = order.courier_id;
  version = order.version;
  created_at = order.created_at;
}

abbrev pub read_maybe : Option DeliveryOrder → Option OrderRead
read_maybe none = none
read_maybe (some order) = some (order_read order)

-- security.owns_order, for an actor
unfoldable pub owns_order : Actor → DeliveryOrder → Bool
owns_order actor order = can_access_order actor order.tenant_id order.customer_id order.courier_id

abbrev pub access_denied : Error
access_denied = http_exception 403 "order access denied"

-- the query of `list_orders`
pub record ListQuery : Type 0 where
  pub limit : ℕ
  pub offset : ℕ
  pub sort : String
  pub status_filter : Option String

module _ {S : Type 0} (py : Runtime) (repo : OrderRepository S) where
  -- the answer and its `Location` header
  unfoldable pub create_order :
      Fresh → Actor → CreateOrderCommand → String → Exec S Error (OrderRead × String)
  create_order fresh actor command idempotency_key = do
    raise_if (actor.role != customer || actor.user_id != command.customer_id)
        (http_exception 403 "cannot create an order for another customer")
    order ← Service.create py repo fresh command (some idempotency_key) actor.tenant_id
    pure (order_read order, append "/api/v1/orders/" (py.uuid_str order.id))

  unfoldable pub get_order : Actor → ℕ → Exec S Error OrderRead
  get_order actor order_id = do
    order ← Service.get py repo order_id
    raise_if (not (owns_order actor order)) access_denied
    pure (order_read order)

  -- the arguments of the task that it schedules
  unfoldable pub rebuild_order_preview : Actor → ℕ → Exec S Error (ℕ × ℕ)
  rebuild_order_preview actor order_id = do
    order ← Service.get py repo order_id
    raise_if (not (owns_order actor order)) access_denied
    pure (order.id, order.version)

  -- the rows of the file
  unfoldable pub export_order : Actor → ℕ → Exec S Error (List String)
  export_order actor order_id = do
    order ← Service.get py repo order_id
    raise_if (not (owns_order actor order)) access_denied
    pure (
        "order_id,status\n"
        ∷ append (py.uuid_str order_id) (append "," (append (status_value order.status) "\n"))
        ∷ [])

  unfoldable pub update_order : Actor → ℕ → UpdateOrderCommand → ℕ → Exec S Error OrderRead
  update_order actor order_id command expected_version = do
    current ← Service.get py repo order_id
    raise_if (not (owns_order actor current)) access_denied
    order ← Service.update py repo order_id command expected_version
    pure (order_read order)

  unfoldable pub transition_order :
      Fresh → Actor → ℕ → OrderStatus → ℕ → String → Exec S Error OrderRead
  transition_order fresh actor order_id target expected_version correlation_id = do
    current ← Service.get py repo order_id
    raise_if (not (owns_order actor current)) access_denied
    raise_if
        (actor.role == customer && (actor.user_id != current.customer_id || target != cancelled))
        (http_exception 403 "customer may only cancel an own order")
    order ← Service.transition py repo fresh order_id (record {
      target = target;
      expected_version = expected_version;
      actor_id = actor.user_id;
      actor_role = role_value actor.role;
      correlation_id = correlation_id;
    })
    pure (order_read order)

  -- `none` is the answer 204
  unfoldable pub claim_next_order : Fresh → Actor → String → Exec S Error (Option OrderRead)
  claim_next_order fresh actor correlation_id = do
    raise_if (actor.role != courier) (http_exception 403 "only couriers may claim orders")
    claimed ← Service.claim_next py repo fresh actor.user_id actor.tenant_id correlation_id
    pure (read_maybe claimed)

  unfoldable pub list_orders : Actor → ListQuery → Exec S Error (List OrderRead)
  list_orders actor q = do
    orders ← Service.list_visible py repo (record {
      role = role_value actor.role;
      actor_id = actor.user_id;
      tenant_id = actor.tenant_id;
      limit = q.limit;
      offset = q.offset;
      sort = q.sort;
      status_filter = q.status_filter;
    })
    pure (map order_read orders)
