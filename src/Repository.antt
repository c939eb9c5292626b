-- ===== src/Repository.antt =====
-- src/delivery_service/repository.py: `InMemoryOrderRepository`. The state is the four attributes of
-- the object; a method is an action on it, and what it wrote before it raised stays written.
pub mod Invariant
pub mod Writes
pub mod Claims
pub mod Exclusive
pub mod Listing
use innoprog_fastapi_deliver.Prelude.{
  ℕ, ◌+◌, String, Bool, true, false, not, ◌&&◌, ◌||◌, Option, none, some, List, [], ◌∷◌, ◌++◌,
  number_eq, text_eq, ◌==◌, ◌!=◌, is_value, ltb, text_ltb, if◌then◌else◌, take, drop, keep_if,
  any_of, Exec, pure, raise, lift, gets, modify, raise_if, ◌>>=◌, ◌>>◌, sort_by,
}
use innoprog_fastapi_deliver.Runtime.{Runtime, Payload}
use innoprog_fastapi_deliver.Dict
use innoprog_fastapi_deliver.Dict.{Dict, values}
use innoprog_fastapi_deliver.Status.{
  OrderStatus, created, assigned, picked_up, status_eq, status_value,
}
use innoprog_fastapi_deliver.Errors.{
  Error, value_error, concurrent_update, idempotency_conflict, courier_already_busy,
}
use innoprog_fastapi_deliver.Domain.{DeliveryOrder, assign}
use innoprog_fastapi_deliver.Events.{
  OrderCreated, OrderStatusChanged, from_transition, created_payload, status_changed_payload,
}
use innoprog_fastapi_deliver.Ports.{VisibleQuery, Claim, OrderRepository}

pub record Memory : Type 0 where
  pub orders : Dict ℕ DeliveryOrder
  pub idempotency : Dict String (String × DeliveryOrder)
  pub outbox : List Payload
  pub transition_history : List OrderStatusChanged

-- InMemoryOrderRepository.__init__
abbrev pub empty : Memory
empty = record { orders = []; idempotency = []; outbox = []; transition_history = [] }

abbrev pub Action : Type 0 → Type 0
Action A = Exec Memory Error A

unfoldable pub add : DeliveryOrder → Action (Unit {0})
add order = modify λ s. record s { orders = Dict.put order.id order s.orders }

unfoldable pub get : ℕ → Action (Option DeliveryOrder)
get order_id = gets λ s. Dict.get order_id s.orders

-- `items[offset : offset + limit]`
abbrev pub page {ℓ} : {A : Type ℓ} → ℕ → ℕ → List A → List A
page limit offset items = take limit (drop offset items)

unfoldable pub list : ℕ → ℕ → Action (List DeliveryOrder)
list limit offset = gets λ s. page limit offset (values s.orders)

-- The sort keys `(created_at, id)` and `(status.value, id)`. An item stays before another unless the
-- other's key is smaller.
unfoldable pub by_created : DeliveryOrder → DeliveryOrder → Bool
by_created a b =
    not (if b.created_at == a.created_at then ltb b.id a.id else ltb b.created_at a.created_at)

unfoldable pub by_status : DeliveryOrder → DeliveryOrder → Bool
by_status a b = not (
    if status_value b.status == status_value a.status
    then ltb b.id a.id
    else text_ltb (status_value b.status) (status_value a.status))

-- the comprehension's condition
unfoldable pub shown : VisibleQuery → DeliveryOrder → Bool
shown q order =
    order.tenant_id == q.tenant_id
    && (q.role == "dispatcher"
        || (q.role == "customer" && order.customer_id == q.actor_id)
        || (q.role == "courier" && is_value order.courier_id q.actor_id))

abbrev pub has_status : Option String → DeliveryOrder → Bool
has_status none order = true
has_status (some status) order = status_value order.status == status

abbrev pub sort_visible : String → List DeliveryOrder → List DeliveryOrder
sort_visible sort = if sort == "status" then sort_by by_status else sort_by by_created

unfoldable pub list_visible : VisibleQuery → Action (List DeliveryOrder)
list_visible q = do
  raise_if (not (q.sort == "created_at" || q.sort == "status"))
      (value_error "unsupported sort field")
  orders ← gets (λ s. values s.orders)
  pure (
      page q.limit q.offset
        (sort_visible q.sort (keep_if (has_status q.status_filter) (keep_if (shown q) orders))))

-- `current is None or current.version != expected_version`
abbrev pub is_stale : Option DeliveryOrder → ℕ → Bool
is_stale none expected_version = true
is_stale (some current) expected_version = current.version != expected_version

unfoldable pub save : DeliveryOrder → ℕ → Action (Unit {0})
save order expected_version = do
  current ← gets (λ s. Dict.get order.id s.orders)
  raise_if (is_stale current expected_version) concurrent_update
  raise_if (order.version != expected_version + 1)
      (value_error "domain state must advance version exactly once")
  modify (λ s. record s { orders = Dict.put order.id order s.orders })

-- an order that makes the courier busy
unfoldable pub is_active : Claim → DeliveryOrder → Bool
is_active c order =
    order.tenant_id == c.tenant_id
    && is_value order.courier_id c.courier_id
    && (order.status == assigned || order.status == picked_up)

unfoldable pub is_waiting : Claim → DeliveryOrder → Bool
is_waiting c order = order.tenant_id == c.tenant_id && order.status == created

module _ (py : Runtime) where
  -- the two appends of an accepted transition
  abbrev pub publish : OrderStatusChanged → Memory → Memory
  publish event s = record s {
    transition_history = s.transition_history ++ event ∷ [];
    outbox = s.outbox ++ status_changed_payload py event ∷ [];
  }

  unfoldable pub save_transition : DeliveryOrder → ℕ → OrderStatusChanged → Action (Unit {0})
  unfolding save
  save_transition order expected_version event = do
    raise_if (event.order_id != order.id || event.order_version != order.version)
        (value_error "transition event does not describe the persisted order")
    save order expected_version
    modify (publish event)

  unfoldable pub take_first : Claim → List DeliveryOrder → Action (Option DeliveryOrder)
  take_first c [] = pure none
  take_first c (candidate ∷ _) = do
    claimed ← lift (assign candidate c.courier_id)
    modify (λ s. record s { orders = Dict.put claimed.id claimed s.orders })
    event ← lift (
        from_transition c.event_id candidate claimed c.courier_id "courier" c.occurred_at
          c.correlation_id)
    modify (publish event)
    pure (some claimed)

  unfoldable pub claim_next_created_order : Claim → Action (Option DeliveryOrder)
  claim_next_created_order c = do
    orders ← gets (λ s. values s.orders)
    raise_if (any_of (is_active c) orders) courier_already_busy
    take_first c (sort_by by_created (keep_if (is_waiting c) orders))

  unfoldable pub record_created_event : OrderCreated → Action (Unit {0})
  record_created_event event =
      modify λ s. record s { outbox = s.outbox ++ created_payload py event ∷ [] }

-- what a stored fingerprint and snapshot answer to a request
abbrev pub replay : String → Option (String × DeliveryOrder) → Action (Option DeliveryOrder)
replay request_fingerprint none = pure none
replay request_fingerprint (some (saved_fingerprint, response_snapshot)) =
    if saved_fingerprint != request_fingerprint
    then raise idempotency_conflict
    else pure (some response_snapshot)

unfoldable pub idempotent_order : String → String → Action (Option DeliveryOrder)
idempotent_order scope request_fingerprint = do
  saved ← gets (λ s. Dict.get scope s.idempotency)
  replay request_fingerprint saved

unfoldable pub remember_idempotency : String → String → DeliveryOrder → Action (Unit {0})
remember_idempotency scope request_fingerprint order =
    modify λ s. record s { idempotency = Dict.put scope (request_fingerprint, order) s.idempotency }

-- The adapter as an implementation of the port.
abbrev pub memory_repository : Runtime → OrderRepository Memory
memory_repository py = record {
  add = add;
  get = get;
  list = list;
  list_visible = list_visible;
  save = save;
  save_transition = save_transition py;
  claim_next_created_order = claim_next_created_order py;
  idempotent_order = idempotent_order;
  remember_idempotency = remember_idempotency;
  record_created_event = record_created_event py;
}
