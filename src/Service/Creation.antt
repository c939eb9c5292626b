-- ===== src/Service/Creation.antt =====
-- `OrderService.create` over the in-memory repository in closed form.
use innoprog_fastapi_deliver.Prelude.{
  ℕ, String, ◌≡◌, Option, none, some, [], ◌∷◌, ◌++◌, ok, err, text_eq, ◌!=◌, if◌then◌else◌, Result,
  arith,
}
use innoprog_fastapi_deliver.Runtime.{Runtime}
use innoprog_fastapi_deliver.Dict
use innoprog_fastapi_deliver.Errors.{Error, idempotency_conflict}
use innoprog_fastapi_deliver.Domain
use innoprog_fastapi_deliver.Domain.{DeliveryOrder}
use innoprog_fastapi_deliver.Commands.{CreateOrderCommand}
use innoprog_fastapi_deliver.Events.{from_order, created_payload}
use innoprog_fastapi_deliver.Repository
use innoprog_fastapi_deliver.Repository.{Memory, memory_repository}
use innoprog_fastapi_deliver.Repository.Writes.{stored}
use innoprog_fastapi_deliver.Service
use innoprog_fastapi_deliver.Service.{Fresh, usable, fingerprint, request_scope}

abbrev pub Answer : Type 0
Answer = Result Error DeliveryOrder × Memory

abbrev pub announced : Runtime → ℕ → DeliveryOrder → Memory → Memory
announced py event_id order s = record s {
  outbox = s.outbox ++ created_payload py (from_order event_id order) ∷ [];
}

abbrev pub placed : Runtime → ℕ → Memory → Result Error DeliveryOrder → Answer
placed py event_id s (ok order) = (ok order, announced py event_id order (stored order s))
placed py event_id s (err e) = (err e, s)

-- The order that a command asks for.
abbrev pub new_order : Fresh → CreateOrderCommand → ℕ → Result Error DeliveryOrder
new_order fresh c tenant_id =
    Domain.create fresh.order_id fresh.now c.customer_id tenant_id c.pickup_address
      c.destination_address c.weight_grams

-- Without an idempotency key.
pub place_lem :
    (py : Runtime) (fresh : Fresh) (c : CreateOrderCommand) (tenant_id : ℕ) (s : Memory)
    → Service.place py (memory_repository py) fresh c tenant_id s
      ≡ placed py fresh.event_id s (new_order fresh c tenant_id)
unfolding Service.place Repository.add Repository.record_created_event
place_lem py fresh c tenant_id s = ground arith

abbrev pub remembered : String → String → Answer → Answer
remembered scope print (ok order, s) =
    (ok order, record s { idempotency = Dict.put scope (print, order) s.idempotency })
remembered scope print (err e, s) = (err e, s)

-- With a key: what is saved under its scope decides.
abbrev pub answered :
    Runtime
    → Fresh
    → CreateOrderCommand
    → ℕ
    → String
    → Memory
    → Option (String × DeliveryOrder)
    → Answer
answered py fresh c tenant_id scope s none =
    remembered scope (fingerprint py c) (placed py fresh.event_id s (new_order fresh c tenant_id))
answered py fresh c tenant_id scope s (some (print, snapshot)) =
    if print != fingerprint py c then (err idempotency_conflict, s) else (ok snapshot, s)

-- A usable key.
pub create_keyed_lem :
    (py : Runtime) (fresh : Fresh) (c : CreateOrderCommand) (key : Option String) (k : String)
    (tenant_id : ℕ) (s : Memory)
    → usable key ≡ some k
    → let scope = request_scope py tenant_id c.customer_id k in
      Service.create py (memory_repository py) fresh c key tenant_id s
      ≡ answered py fresh c tenant_id scope s (Dict.get scope s.idempotency)
unfolding Service.create Service.place Repository.idempotent_order Repository.add
    Repository.record_created_event Repository.remember_idempotency
create_keyed_lem py fresh c key k tenant_id s h = ground arith

pub create_unkeyed_lem :
    (py : Runtime) (fresh : Fresh) (c : CreateOrderCommand) (key : Option String) (tenant_id : ℕ)
    (s : Memory)
    → usable key ≡ none
    → Service.create py (memory_repository py) fresh c key tenant_id s
      ≡ placed py fresh.event_id s (new_order fresh c tenant_id)
unfolding Service.create Service.place Repository.add Repository.record_created_event
create_unkeyed_lem py fresh c key tenant_id s h = ground arith
