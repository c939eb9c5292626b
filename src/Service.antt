-- ===== src/Service.antt =====
-- src/delivery_service/service.py: the use cases of `OrderService`, over any repository that
-- implements the port. `uuid4()` and `clock.now()` are arguments.
pub mod Optimistic
pub mod Creation
pub mod Calls
pub mod Onward
pub mod Advancing
pub mod Claiming
pub mod Race
pub mod Replay
use Prim.Native.String.{◌++◌ as append}
use innoprog_fastapi_deliver.Prelude.{
  ℕ, String, Bool, Option, none, some, List, text_eq, number_eq, ◌==◌, ◌!=◌, if◌then◌else◌, Exec,
  pure, raise, lift, raise_if, ◌>>=◌, ◌>>◌,
}
use innoprog_fastapi_deliver.Runtime.{Runtime}
use innoprog_fastapi_deliver.Errors.{Error, concurrent_update, order_not_found}
use innoprog_fastapi_deliver.Domain
use innoprog_fastapi_deliver.Domain.{DeliveryOrder}
use innoprog_fastapi_deliver.Commands.{
  CreateOrderCommand, UpdateOrderCommand, TransitionOrderCommand, canonical_payload, changes,
}
use innoprog_fastapi_deliver.Events.{from_order, from_transition}
use innoprog_fastapi_deliver.Ports.{OrderRepository, VisibleQuery, Claim}

-- What a call of the service draws from `uuid4()` and the clock.
pub record Fresh : Type 0 where
  pub order_id : ℕ
  pub event_id : ℕ
  pub now : ℕ

infixr 65 ◌<>◌
abbrev ◌<>◌ : String → String → String
a <> b = append a b

abbrev pub request_scope : Runtime → ℕ → ℕ → String → String
request_scope py tenant_id customer_id key =
    "create_order:" <> py.uuid_str tenant_id <> ":" <> py.uuid_str customer_id <> ":" <> key

abbrev pub fingerprint : Runtime → CreateOrderCommand → String
fingerprint py command = py.sha256_hexdigest (py.json_dumps (canonical_payload py command))

-- `if idempotency_key:` takes an empty key for none
abbrev pub usable : Option String → Option String
usable none = none
usable (some key) = if key == "" then none else some key

module _ {S : Type 0} (py : Runtime) (repo : OrderRepository S) where
  abbrev Action : Type 0 → Type 0
  Action A = Exec S Error A

  -- the part of `create` that makes a new order
  unfoldable pub place : Fresh → CreateOrderCommand → ℕ → Action DeliveryOrder
  place fresh c tenant_id = do
    order ← lift (
        Domain.create fresh.order_id fresh.now c.customer_id tenant_id c.pickup_address
          c.destination_address c.weight_grams)
    repo.add order
    repo.record_created_event (from_order fresh.event_id order)
    pure order

  abbrev remember : String → String → DeliveryOrder → Action DeliveryOrder
  remember scope print order = do repo.remember_idempotency scope print order; pure order

  abbrev place_once :
      Fresh → CreateOrderCommand → ℕ → String → Option DeliveryOrder → Action DeliveryOrder
  place_once fresh c tenant_id scope (some existing) = pure existing
  place_once fresh c tenant_id scope none = do
    order ← place fresh c tenant_id
    remember scope (fingerprint py c) order

  abbrev create_with : Fresh → CreateOrderCommand → ℕ → Option String → Action DeliveryOrder
  create_with fresh c tenant_id none = place fresh c tenant_id
  create_with fresh c tenant_id (some key) = do
    existing ←
        repo.idempotent_order (request_scope py tenant_id c.customer_id key) (fingerprint py c)
    place_once fresh c tenant_id (request_scope py tenant_id c.customer_id key) existing

  unfoldable pub create : Fresh → CreateOrderCommand → Option String → ℕ → Action DeliveryOrder
  unfolding place
  create fresh c idempotency_key tenant_id = create_with fresh c tenant_id (usable idempotency_key)

  abbrev found : ℕ → Option DeliveryOrder → Action DeliveryOrder
  found order_id none = raise (order_not_found order_id)
  found order_id (some order) = pure order

  unfoldable pub get : ℕ → Action DeliveryOrder
  get order_id = do order ← repo.get order_id; found order_id order

  unfoldable pub list : ℕ → ℕ → Action (List DeliveryOrder)
  list limit offset = repo.list limit offset

  unfoldable pub list_visible : VisibleQuery → Action (List DeliveryOrder)
  list_visible q = repo.list_visible q

  unfoldable pub assign : Fresh → ℕ → ℕ → Action DeliveryOrder
  unfolding get
  assign fresh order_id courier_id = do
    current ← get order_id
    updated ← lift (Domain.assign current courier_id)
    event ←
        lift (
          from_transition fresh.event_id current updated courier_id "courier" fresh.now
            "assignment")
    repo.save_transition updated current.version event
    pure updated

  unfoldable pub claim_next : Fresh → ℕ → ℕ → String → Action (Option DeliveryOrder)
  claim_next fresh courier_id tenant_id correlation_id = repo.claim_next_created_order (record {
    courier_id = courier_id;
    tenant_id = tenant_id;
    occurred_at = fresh.now;
    correlation_id = correlation_id;
    event_id = fresh.event_id;
  })

  unfoldable pub update : ℕ → UpdateOrderCommand → ℕ → Action DeliveryOrder
  unfolding get
  update order_id command expected_version = do
    current ← get order_id
    raise_if (current.version != expected_version) concurrent_update
    updated ← lift (Domain.update_details py current (changes command))
    repo.save updated expected_version
    pure updated

  unfoldable pub transition : Fresh → ℕ → TransitionOrderCommand → Action DeliveryOrder
  unfolding get
  transition fresh order_id command = do
    current ← get order_id
    raise_if (current.version != command.expected_version) concurrent_update
    updated ← lift (Domain.transition current command.target)
    event ← lift (
        from_transition fresh.event_id current updated command.actor_id command.actor_role fresh.now
          command.correlation_id)
    repo.save_transition updated command.expected_version event
    pure updated
