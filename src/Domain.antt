-- ===== src/Domain.antt =====
-- src/delivery_service/domain.py: the order aggregate. A method that returns a changed copy returns
-- the new record; `uuid4()` and the current time are arguments.
pub mod StateMachine
pub mod Details
use innoprog_fastapi_deliver.Prelude.{
  ℕ, ◌+◌, String, Bool, true, false, Option, none, some, List, [], ◌∷◌, text_eq, ◌==◌, ltb, leb,
  ◌&&◌, any_of, Result, ok, err, if◌then◌else◌,
}
use innoprog_fastapi_deliver.Runtime.{Runtime}
use innoprog_fastapi_deliver.Status.{OrderStatus, created, assigned, allows}
use innoprog_fastapi_deliver.Errors.{Error, value_error, invalid_transition}

pub record DeliveryOrder : Type 0 where
  pub id : ℕ
  pub tenant_id : ℕ
  pub customer_id : ℕ
  pub pickup_address : String
  pub destination_address : String
  pub weight_grams : ℕ
  pub status : OrderStatus
  pub courier_id : Option ℕ
  pub version : ℕ
  pub created_at : ℕ

-- `0 < weight_grams <= 100_000`
abbrev pub weight_ok : ℕ → Bool
weight_ok weight = ltb 0 weight && leb weight 100000

-- DeliveryOrder.create
unfoldable pub create : ℕ → ℕ → ℕ → ℕ → String → String → ℕ → Result Error DeliveryOrder
create new_id created_at customer_id tenant_id pickup_address destination_address weight_grams =
    if weight_ok weight_grams
    then ok (record {
      id = new_id;
      tenant_id = tenant_id;
      customer_id = customer_id;
      pickup_address = pickup_address;
      destination_address = destination_address;
      weight_grams = weight_grams;
      status = created;
      courier_id = none;
      version = 1;
      created_at = created_at;
    })
    else err (value_error "weight_grams must be between 1 and 100000")

-- DeliveryOrder.transition
unfoldable pub transition : DeliveryOrder → OrderStatus → Result Error DeliveryOrder
transition order target =
    if allows order.status target
    then ok (record order { status = target; version = order.version + 1 })
    else err (invalid_transition order.status target)

abbrev with_courier : ℕ → Result Error DeliveryOrder → Result Error DeliveryOrder
with_courier courier_id (ok order) = ok (record order { courier_id = some courier_id })
with_courier courier_id (err e) = err e

-- DeliveryOrder.assign
unfoldable pub assign : DeliveryOrder → ℕ → Result Error DeliveryOrder
unfolding transition
assign order courier_id = with_courier courier_id (transition order assigned)

-- A keyword argument of `update_details(**changes)`.
pub data Change : Type 0 where
  pickup_address : String → Change
  destination_address : String → Change
  weight_grams : ℕ → Change
  other : String → Change  -- any other keyword

abbrev unsupported : Change → Bool
unsupported (other _) = true
unsupported _ = false

abbrev replace : DeliveryOrder → Change → DeliveryOrder
replace order (pickup_address text) = record order { pickup_address = text }
replace order (destination_address text) = record order { destination_address = text }
replace order (weight_grams weight) = record order { weight_grams = weight }
replace order (other _) = order

abbrev replace_all : DeliveryOrder → List Change → DeliveryOrder
replace_all order [] = order
replace_all order (change ∷ changes) = replace_all (replace order change) changes

-- the checks after `replace`
abbrev checked : Runtime → DeliveryOrder → Result Error DeliveryOrder
checked py updated =
    if py.casefold updated.pickup_address == py.casefold updated.destination_address
    then err (value_error "pickup and destination addresses must differ")
    else if weight_ok updated.weight_grams
    then ok updated
    else err (value_error "weight_grams must be between 1 and 100000")

-- DeliveryOrder.update_details
unfoldable pub update_details : Runtime → DeliveryOrder → List Change → Result Error DeliveryOrder
update_details py order changes =
    if any_of unsupported changes
    then err (value_error "unsupported order field")
    else (let replaced = replace_all order changes in
        checked py (record replaced { version = order.version + 1 }))
