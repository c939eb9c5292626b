-- ===== src/Tests/Handlers.antt =====
-- The handlers of orders at concrete inputs.
use innoprog_fastapi_deliver.Prelude.{
  ℕ, String, ◌≡◌, refl, true, none, some, ok, err, ◌||◌, number_eq, ◌==◌, ◌!=◌,
}
use innoprog_fastapi_deliver.Dict
use innoprog_fastapi_deliver.Access.{Actor, customer, role_eq, can_access_order}
use innoprog_fastapi_deliver.ErrorContract.{handler, http_error_specs}
use innoprog_fastapi_deliver.Access.Decision.{Grants}
use innoprog_fastapi_deliver.Status.{OrderStatus, status_eq, allows, cancelled}
use innoprog_fastapi_deliver.Domain
use innoprog_fastapi_deliver.Domain.{DeliveryOrder}
use innoprog_fastapi_deliver.Commands.{UpdateOrderCommand}
use innoprog_fastapi_deliver.Events
use innoprog_fastapi_deliver.Repository
use innoprog_fastapi_deliver.Repository.{Memory, memory_repository, publish}
use innoprog_fastapi_deliver.Repository.Writes.{stored, moved}
use innoprog_fastapi_deliver.Service
use innoprog_fastapi_deliver.Service.{Fresh}
use innoprog_fastapi_deliver.Service.Calls.{create, after}
use innoprog_fastapi_deliver.Service.Optimistic.{moved_event}
use innoprog_fastapi_deliver.OrderApi
use innoprog_fastapi_deliver.OrderApi.{
  order_read, owns_order, access_denied, get_order, rebuild_order_preview, export_order,
  update_order, transition_order, list_orders, claim_next_order, create_order,
}
use innoprog_fastapi_deliver.OrderApi.Authority.{
  strangers_change_nothing, move_command, accepted_move_is_authorised,
}
use innoprog_fastapi_deliver.OrderApi.Statuses.{code_of, update_order_codes}
use innoprog_fastapi_deliver.Tests.Data.{plain, parcel, new_parcel, done_parcel, buyer}

opened : Unit {0}
unfolding after Service.create Service.place Service.transition Service.get Service.update
    Repository.idempotent_order Repository.add Repository.get Repository.record_created_event
    Repository.remember_idempotency Repository.save_transition Repository.save Domain.create
    Domain.transition Domain.assign Domain.update_details Dict.get Dict.put Events.from_transition
    get_order update_order transition_order owns_order create_order export_order can_access_order
    handler http_error_specs
opened = tt

abbrev fresh : Fresh
fresh = record { order_id = 7; event_id = 70; now = 100 }

abbrev one_order : Memory
one_order = after plain (create fresh parcel none 1) Repository.empty

found : Dict.get 7 one_order.orders ≡ some new_parcel
unfolding opened
found = refl

abbrev stranger : Actor
stranger = record { user_id = 6; role = customer; tenant_id = 1 }

strangers_change_nothing_example :
    (get_order plain (memory_repository plain) stranger 7 one_order
      ≡ (err access_denied, one_order))
    × (rebuild_order_preview plain (memory_repository plain) stranger 7 one_order
        ≡ (err access_denied, one_order))
    × (export_order plain (memory_repository plain) stranger 7 one_order
        ≡ (err access_denied, one_order))
    × ((c : UpdateOrderCommand) (v : ℕ)
        → update_order plain (memory_repository plain) stranger 7 c v one_order
          ≡ (err access_denied, one_order))
    × ((f : Fresh) (target : OrderStatus) (v : ℕ) (correlation_id : String)
        → transition_order plain
            (memory_repository plain)
            f
            stranger
            7
            target
            v
            correlation_id
            one_order
          ≡ (err access_denied, one_order))
unfolding can_access_order
strangers_change_nothing_example =
    strangers_change_nothing plain stranger 7 one_order new_parcel found refl

abbrev after_move : Memory
after_move =
    (transition_order plain (memory_repository plain) fresh buyer 7 cancelled 1 "web" one_order).1

moves :
    transition_order plain (memory_repository plain) fresh buyer 7 cancelled 1 "web" one_order
    ≡ (ok (order_read done_parcel), after_move)
unfolding opened
moves = refl

accepted_move_is_authorised_example :
    Grants buyer 1 5 none
    × ((buyer.role != customer || cancelled == cancelled) ≡ true)
    × (new_parcel.version ≡ 1)
    × (allows new_parcel.status cancelled ≡ true)
    × (order_read done_parcel ≡ order_read (moved new_parcel cancelled))
    × (after_move
        ≡ publish plain
            (moved_event fresh new_parcel (move_command buyer cancelled 1 "web"))
            (stored (moved new_parcel cancelled) one_order))
accepted_move_is_authorised_example =
    accepted_move_is_authorised plain fresh buyer 7 cancelled 1 "web" one_order after_move
      new_parcel (order_read done_parcel) found refl moves

-- The pickup address becomes the destination.
abbrev same_address : UpdateOrderCommand
same_address = record {
  pickup_address = some "Nevsky 2";
  destination_address = none;
  weight_grams = none;
}

update_order_codes_example :
    code_of 200 (update_order plain (memory_repository plain) buyer 7 same_address 1 one_order).0
    ≡ 500
unfolding owns_order can_access_order
update_order_codes_example =
    update_order_codes plain buyer 7 same_address 1 one_order new_parcel found refl refl

-- A customer cannot pick the order up, and cannot order for another.
abbrev pick_up : OrderStatus
pick_up = OrderStatus.picked_up

forbidden :
    code_of 200
      (transition_order plain (memory_repository plain) fresh buyer 7 pick_up 1 "web" one_order).0
    ≡ 403
unfolding opened
forbidden = refl

for_another :
    code_of 201
      (OrderApi.create_order plain
        (memory_repository plain)
        fresh
        stranger
        parcel
        "key"
        one_order).0
    ≡ 403
unfolding opened
for_another = refl
