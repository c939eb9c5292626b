-- ===== src/OrderApi/Statuses.antt =====
-- The HTTP status codes of the handlers of orders, over the in-memory repository.
use innoprog_fastapi_deliver.Prelude.{
  ℕ, ◌≡◌, true, none, some, Option, arith, ok, err, text_eq, number_eq, ◌==◌, ◌!=◌, not,
  if◌then◌else◌, Result, Result-cases, inl, inr,
}
use innoprog_fastapi_deliver.Runtime.{Runtime}
use innoprog_fastapi_deliver.Dict
use innoprog_fastapi_deliver.Errors.{Error}
use innoprog_fastapi_deliver.ErrorContract.{handler, http_error_specs}
use innoprog_fastapi_deliver.Access.{Actor}
use innoprog_fastapi_deliver.Domain
use innoprog_fastapi_deliver.Domain.{DeliveryOrder, weight_ok}
use innoprog_fastapi_deliver.Commands.{UpdateOrderCommand, changes}
use innoprog_fastapi_deliver.Repository
use innoprog_fastapi_deliver.Repository.{Memory, memory_repository}
use innoprog_fastapi_deliver.Service
use innoprog_fastapi_deliver.Service.Optimistic.{update_lem}
use innoprog_fastapi_deliver.OrderApi.{owns_order, update_order}

-- The status code of an answer; `done` is that of a handler which returns.
abbrev pub code_of : {A : Type 0} → ℕ → Result Error A → ℕ
code_of done (ok _) = done
code_of done (err e) = (handler e).status_code

-- what an edit gives in place of a value
abbrev pub edited : {A : Type 0} → Option A → A → A
edited none current = current
edited (some new) current = new

update_code :
    (py : Runtime) (current : DeliveryOrder) (c : UpdateOrderCommand)
    → weight_ok (edited c.weight_grams current.weight_grams) ≡ true
    → code_of 200 (Domain.update_details py current (changes c)) ≡ (
        if py.casefold (edited c.pickup_address current.pickup_address)
          == py.casefold (edited c.destination_address current.destination_address)
        then 500
        else 200)
unfolding Domain.update_details changes handler
update_code py current c weight = ground (arith, weight)

-- The status codes of an edit of a stored order with a weight that the schemas admit: 403 without
-- access, 409 at another version, 500 when the edited addresses are equal but for their case, which no
-- exception handler names, and 200 otherwise.
pub update_order_codes :
    (py : Runtime) (actor : Actor) (order_id : ℕ) (c : UpdateOrderCommand) (v : ℕ) (s : Memory)
    (current : DeliveryOrder)
    → Dict.get order_id s.orders ≡ some current
    → current.id ≡ order_id
    → weight_ok (edited c.weight_grams current.weight_grams) ≡ true
    → code_of 200 (update_order py (memory_repository py) actor order_id c v s).0 ≡ (
        if not (owns_order actor current)
        then 403
        else if current.version != v
        then 409
        else if py.casefold (edited c.pickup_address current.pickup_address)
            == py.casefold (edited c.destination_address current.destination_address)
        then 500
        else 200)
unfolding update_order Service.get Repository.get handler http_error_specs Dict.get
update_order_codes py actor order_id c v s current found keyed weight =
    elim (Result-cases (Domain.update_details py current (changes c))) [
      | inl (updated, accepted) ↦ ground (
        arith,
        found,
        accepted,
        update_lem py order_id c v s current found keyed,
        update_code py current c weight,
      )
      | inr (e, refused) ↦ ground (
        arith,
        found,
        refused,
        update_lem py order_id c v s current found keyed,
        update_code py current c weight,
      )
    ]
