-- ===== src/OrderApi/Authority.antt =====
-- Who can read and change an order through the HTTP handlers, over the in-memory repository.
use innoprog_fastapi_deliver.Prelude.{
  ℕ, String, ◌≡◌, true, false, some, arith, ok, err, number_eq, ◌==◌, ◌!=◌, ◌&&◌, ◌||◌, not,
  if◌then◌else◌,
}
use innoprog_fastapi_deliver.Runtime.{Runtime}
use innoprog_fastapi_deliver.Dict
use innoprog_fastapi_deliver.Errors.{http_exception, concurrent_update, invalid_transition}
use innoprog_fastapi_deliver.Access.{Actor, customer, role_eq, role_value, can_access_order}
use innoprog_fastapi_deliver.Access.Decision.{Grants, access_iff_granted}
use innoprog_fastapi_deliver.Status.{OrderStatus, cancelled, status_eq, allows}
use innoprog_fastapi_deliver.Domain.{DeliveryOrder}
use innoprog_fastapi_deliver.Commands.{UpdateOrderCommand, TransitionOrderCommand}
use innoprog_fastapi_deliver.Repository
use innoprog_fastapi_deliver.Repository.{Memory, memory_repository, publish}
use innoprog_fastapi_deliver.Repository.Writes.{stored, moved}
use innoprog_fastapi_deliver.Service
use innoprog_fastapi_deliver.Service.{Fresh}
use innoprog_fastapi_deliver.Service.Optimistic.{moved_event, transition_lem}
use innoprog_fastapi_deliver.OrderApi.{
  OrderRead, order_read, owns_order, access_denied, get_order, rebuild_order_preview, export_order,
  update_order, transition_order,
}

-- A stored order answers only actors that have access to it: for any other, reading, scheduling a
-- preview, exporting, editing and moving it are refused with 403, and the repository stays as it was.
pub strangers_change_nothing :
    (py : Runtime) (actor : Actor) (order_id : ℕ) (s : Memory) (current : DeliveryOrder)
    → Dict.get order_id s.orders ≡ some current
    → can_access_order actor current.tenant_id current.customer_id current.courier_id ≡ false
    → (get_order py (memory_repository py) actor order_id s ≡ (err access_denied, s))
      × (rebuild_order_preview py (memory_repository py) actor order_id s ≡ (err access_denied, s))
      × (export_order py (memory_repository py) actor order_id s ≡ (err access_denied, s))
      × ((c : UpdateOrderCommand) (v : ℕ)
          → update_order py (memory_repository py) actor order_id c v s ≡ (err access_denied, s))
      × ((fresh : Fresh) (target : OrderStatus) (v : ℕ) (correlation_id : String)
          → transition_order py
              (memory_repository py)
              fresh
              actor
              order_id
              target
              v
              correlation_id
              s
            ≡ (err access_denied, s))
unfolding get_order rebuild_order_preview export_order update_order transition_order owns_order
    Service.get Repository.get
strangers_change_nothing py actor order_id s current found denied = (
  ground (arith, found, denied),
  ground (arith, found, denied),
  ground (arith, found, denied),
  λ c v. ground (arith, found, denied),
  λ fresh target v correlation_id. ground (arith, found, denied),
)

-- The command that `transition_order` hands to the service.
abbrev pub move_command : Actor → OrderStatus → ℕ → String → TransitionOrderCommand
move_command actor target v correlation_id = record {
  target = target;
  expected_version = v;
  actor_id = actor.user_id;
  actor_role = role_value actor.role;
  correlation_id = correlation_id;
}

-- `transition_order` on a stored order, on every branch.
pub transition_order_lem :
    (py : Runtime) (fresh : Fresh) (actor : Actor) (order_id : ℕ) (target : OrderStatus) (v : ℕ)
    (correlation_id : String) (s : Memory) (current : DeliveryOrder)
    → Dict.get order_id s.orders ≡ some current
    → current.id ≡ order_id
    → transition_order py (memory_repository py) fresh actor order_id target v correlation_id s ≡ (
        if not (owns_order actor current)
        then (err access_denied, s)
        else if actor.role == customer
            && (actor.user_id != current.customer_id || target != cancelled)
        then (err (http_exception 403 "customer may only cancel an own order"), s)
        else if current.version != v
        then (err concurrent_update, s)
        else if allows current.status target
        then (
          ok (order_read (moved current target)),
          publish py
              (moved_event fresh current (move_command actor target v correlation_id))
              (stored (moved current target) s),
        )
        else (err (invalid_transition current.status target), s))
unfolding transition_order Service.get Repository.get
transition_order_lem py fresh actor order_id target v correlation_id s current found keyed =
    ground (
      arith,
      found,
      transition_lem py fresh order_id (move_command actor target v correlation_id) s current found
          keyed,
    )

-- A move that `transition_order` accepts is by the dispatcher of the order's tenant, by the courier
-- who carries it or by the customer whose order it is, who can only cancel; it starts from the version
-- that the client saw and is in the diagram; and it leaves the moved order and one event, which names
-- that actor and the actor's role.
pub accepted_move_is_authorised :
    (py : Runtime) (fresh : Fresh) (actor : Actor) (order_id : ℕ) (target : OrderStatus) (v : ℕ)
    (correlation_id : String) (s t : Memory) (current : DeliveryOrder) (answer : OrderRead)
    → Dict.get order_id s.orders ≡ some current
    → current.id ≡ order_id
    → transition_order py (memory_repository py) fresh actor order_id target v correlation_id s
      ≡ (ok answer, t)
    → Grants actor current.tenant_id current.customer_id current.courier_id
      × ((actor.role != customer || target == cancelled) ≡ true)
      × (current.version ≡ v)
      × (allows current.status target ≡ true)
      × (answer ≡ order_read (moved current target))
      × (t
          ≡ publish py
              (moved_event fresh current (move_command actor target v correlation_id))
              (stored (moved current target) s))
unfolding owns_order
accepted_move_is_authorised py fresh actor order_id target v correlation_id s t current answer found
      keyed accepted =
    let lem =
      transition_order_lem py fresh actor order_id target v correlation_id s current found keyed in
    (
      (access_iff_granted actor current.tenant_id current.customer_id current.courier_id).0
          (ground (arith, lem, accepted)),
      ground (arith, lem, accepted),
      ground (arith, lem, accepted),
      ground (arith, lem, accepted),
      ground (arith, lem, accepted),
      ground (arith, lem, accepted),
    )
