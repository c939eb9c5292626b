-- ===== src/Service/Optimistic.antt =====
-- `OrderService` over the in-memory repository: each command in closed form, and what optimistic
-- versions promise to two clients that write the same order.
use innoprog_fastapi_deliver.Prelude.{
  ℕ, ◌+◌, ◌≡◌, some, arith, ok, err, number_eq, ◌!=◌, if◌then◌else◌, Result, inl, inr, Result-cases,
}
use innoprog_fastapi_deliver.Runtime.{Runtime}
use innoprog_fastapi_deliver.Dict
use innoprog_fastapi_deliver.Status.{assigned, allows}
use innoprog_fastapi_deliver.Errors.{Error, concurrent_update, invalid_transition}
use innoprog_fastapi_deliver.Domain
use innoprog_fastapi_deliver.Domain.{DeliveryOrder}
use innoprog_fastapi_deliver.Domain.Details.{update_details-IsEdit}
use innoprog_fastapi_deliver.Commands.{UpdateOrderCommand, TransitionOrderCommand, changes}
use innoprog_fastapi_deliver.Events.{OrderStatusChanged, from_transition}
use innoprog_fastapi_deliver.Repository
use innoprog_fastapi_deliver.Repository.{Memory, memory_repository, publish}
use innoprog_fastapi_deliver.Repository.Writes.{stored, moved, given_to}
use innoprog_fastapi_deliver.Service
use innoprog_fastapi_deliver.Service.{Fresh}

-- The event of an accepted transition.
abbrev pub moved_event : Fresh → DeliveryOrder → TransitionOrderCommand → OrderStatusChanged
moved_event fresh current c = record {
  event_id = fresh.event_id;
  order_id = current.id;
  tenant_id = current.tenant_id;
  from_status = current.status;
  to_status = c.target;
  order_version = current.version + 1;
  actor_id = c.actor_id;
  actor_role = c.actor_role;
  occurred_at = fresh.now;
  correlation_id = c.correlation_id;
}

-- A transition of a stored order, on every branch: a stale version is refused, then a transition
-- that the diagram forbids, both with nothing written; an accepted one stores the order with the
-- new status and the next version, and appends one event to the history and its payload to the
-- outbox.
pub transition_lem :
    (py : Runtime) (fresh : Fresh) (order_id : ℕ) (c : TransitionOrderCommand) (s : Memory)
    (current : DeliveryOrder)
    → Dict.get order_id s.orders ≡ some current
    → current.id ≡ order_id
    → Service.transition py (memory_repository py) fresh order_id c s ≡ (
        if current.version != c.expected_version
        then (err concurrent_update, s)
        else if allows current.status c.target
        then (
          ok (moved current c.target),
          publish py (moved_event fresh current c) (stored (moved current c.target) s),
        )
        else (err (invalid_transition current.status c.target), s))
unfolding Service.transition Service.get Repository.get Repository.save_transition Repository.save
    from_transition Domain.transition
transition_lem py fresh order_id c s current found keyed = ground arith

abbrev pub kept : Memory → Result Error DeliveryOrder → Result Error DeliveryOrder × Memory
kept s (ok updated) = (ok updated, stored updated s)
kept s (err e) = (err e, s)

-- An edit of a stored order, on every branch.
pub update_lem :
    (py : Runtime) (order_id : ℕ) (c : UpdateOrderCommand) (v : ℕ) (s : Memory)
    (current : DeliveryOrder)
    → Dict.get order_id s.orders ≡ some current
    → current.id ≡ order_id
    → Service.update py (memory_repository py) order_id c v s ≡ (
        if current.version != v
        then (err concurrent_update, s)
        else kept s (Domain.update_details py current (changes c)))
unfolding Service.update Service.get Repository.get Repository.save
update_lem py order_id c v s current found keyed =
    elim (Result-cases (Domain.update_details py current (changes c))) [
      | inl (updated, accepted) ↦
          ground (arith, accepted, update_details-IsEdit py current (changes c) accepted)
      | inr (e, refused) ↦ ground (arith, refused)
    ]

abbrev pub given_event : Fresh → DeliveryOrder → ℕ → OrderStatusChanged
given_event fresh current courier_id = record {
  event_id = fresh.event_id;
  order_id = current.id;
  tenant_id = current.tenant_id;
  from_status = current.status;
  to_status = assigned;
  order_version = current.version + 1;
  actor_id = courier_id;
  actor_role = "courier";
  occurred_at = fresh.now;
  correlation_id = "assignment";
}

-- The assignment of a stored order, on every branch.
pub assign_lem :
    (py : Runtime) (fresh : Fresh) (order_id courier_id : ℕ) (s : Memory) (current : DeliveryOrder)
    → Dict.get order_id s.orders ≡ some current
    → current.id ≡ order_id
    → Service.assign py (memory_repository py) fresh order_id courier_id s ≡ (
        if allows current.status assigned
        then (
          ok (given_to current courier_id),
          publish py
              (given_event fresh current courier_id)
              (stored (given_to current courier_id) s),
        )
        else (err (invalid_transition current.status assigned), s))
unfolding Service.assign Service.get Repository.get Repository.save_transition Repository.save
    from_transition Domain.assign
assign_lem py fresh order_id courier_id s current found keyed = ground arith
