-- ===== src/Tests/Orders.antt =====
-- The theorems on orders, the repository and the service at concrete inputs.
use innoprog_fastapi_deliver.Prelude.{
  ℕ, ◌+◌, ◌≤◌, ◌≡◌, ◌≢◌, ◌⊎◌, refl, none, some, [], ◌∷◌, ok, err, List, String, number_eq, sort_by,
}
use innoprog_fastapi_deliver.Dict
use innoprog_fastapi_deliver.Dict.{values}
use innoprog_fastapi_deliver.Errors.{
  concurrent_update, courier_already_busy, idempotency_conflict, value_error,
}
use innoprog_fastapi_deliver.Status.{assigned, picked_up, delivered, cancelled}
use innoprog_fastapi_deliver.Domain
use innoprog_fastapi_deliver.Domain.{DeliveryOrder, pickup_address, weight_grams}
use innoprog_fastapi_deliver.Domain.Details.{HasWeight, SameIdentity}
use innoprog_fastapi_deliver.Domain.StateMachine.{born, taken, lifecycle}
use innoprog_fastapi_deliver.Commands.{CreateOrderCommand}
use innoprog_fastapi_deliver.Events
use innoprog_fastapi_deliver.Ports.{Claim}
use innoprog_fastapi_deliver.Repository
use innoprog_fastapi_deliver.Repository.{
  Memory, empty, memory_repository, claim_next_created_order, list_visible,
}
use innoprog_fastapi_deliver.Repository.Invariant.{IsConsistent}
use innoprog_fastapi_deliver.Repository.Claims.{Answers, claim_takes_oldest}
use innoprog_fastapi_deliver.Repository.Listing.{query_of, IsListing, list_visible_respects_access}
use innoprog_fastapi_deliver.Service
use innoprog_fastapi_deliver.Service.{Fresh, fingerprint}
use innoprog_fastapi_deliver.Service.Calls.{
  Later, same, create, after, Reached, start, call, Reached-IsConsistent,
}
use innoprog_fastapi_deliver.Service.Race.{
  Write, move, write, no_lost_update, refused_write_is_void,
}
use innoprog_fastapi_deliver.Service.Replay.{create_replays}
use innoprog_fastapi_deliver.Service.Claiming.{claim_exclusive}
use innoprog_fastapi_deliver.Tests.Data.{plain, parcel, new_parcel, done_parcel, buyer}

abbrev first_fresh : Fresh
first_fresh = record { order_id = 7; event_id = 70; now = 100 }

abbrev second_fresh : Fresh
second_fresh = record { order_id = 8; event_id = 80; now = 200 }

abbrev one_order : Memory
one_order = after plain (create first_fresh parcel (some "key-0001") 1) empty

one_order-Reached : Reached plain one_order
unfolding Dict.get
one_order-Reached = call (create first_fresh parcel (some "key-0001") 1) start refl

Reached-IsConsistent_example : IsConsistent plain one_order
Reached-IsConsistent_example = Reached-IsConsistent one_order-Reached

abbrev pick_it : Write
pick_it = move second_fresh cancelled 5 "customer" "web"

-- The line opens the code that the runs below compute with.
opened : Unit {0}
unfolding write after Service.create Service.place Service.transition Repository.idempotent_order
    Repository.add Repository.get Repository.record_created_event Repository.remember_idempotency
    Repository.save_transition Repository.save Domain.create Domain.transition Domain.assign
    Dict.get Dict.put Events.from_transition Repository.claim_next_created_order
    Repository.take_first Repository.is_active Repository.is_waiting Repository.by_created
    Service.update Domain.update_details
opened = tt

first_write : (write plain 7 pick_it 1 one_order).0 ≡ ok done_parcel
unfolding opened
first_write = refl

no_lost_update_example :
    let s' = (write plain 7 pick_it 1 one_order).1 in
    (Dict.get 7 s'.orders ≡ some done_parcel)
    × (done_parcel.version ≡ 2)
    × ((t : Memory) (w' : Write)
        → Later plain s' t
        → write plain 7 w' 1 t ≡ (err concurrent_update, t))
no_lost_update_example =
    no_lost_update plain 7 one_order pick_it 1 done_parcel (Reached-IsConsistent one_order-Reached)
      first_write

late_write : (write plain 7 pick_it 2 one_order).0 ≡ err concurrent_update
unfolding opened
late_write = refl

refused_write_is_void_example :
    write plain 7 pick_it 2 one_order ≡ (err concurrent_update, one_order)
refused_write_is_void_example =
    refused_write_is_void plain 7 one_order pick_it 2 concurrent_update
      (Reached-IsConsistent one_order-Reached) late_write

first_answer :
    (Service.create plain (memory_repository plain) first_fresh parcel (some "key-0001") 1 empty).0
    ≡ ok new_parcel
unfolding opened
first_answer = refl

create_replays_example :
    let t =
      (Service.create plain
        (memory_repository plain)
        first_fresh
        parcel
        (some "key-0001")
        1
        empty).1 in
    (Service.create plain (memory_repository plain) second_fresh parcel (some "key-0001") 1 t
      ≡ (ok new_parcel, t))
    × ((c' : CreateOrderCommand)
        → c'.customer_id ≡ parcel.customer_id
        → fingerprint plain c' ≢ fingerprint plain parcel
        → Service.create plain (memory_repository plain) second_fresh c' (some "key-0001") 1 t
          ≡ (err idempotency_conflict, t))
unfolding Dict.get
create_replays_example =
    create_replays plain first_fresh second_fresh parcel (some "key-0001") "key-0001" 1 empty
      (Service.create plain (memory_repository plain) first_fresh parcel (some "key-0001") 1
        empty).1
      new_parcel start refl refl first_answer same

abbrev rider : Claim
rider = record {
  courier_id = 20;
  tenant_id = 1;
  occurred_at = 300;
  correlation_id = "queue-claim";
  event_id = 90;
}

abbrev ridden_parcel : DeliveryOrder
ridden_parcel = record new_parcel { status = assigned; courier_id = some 20; version = 2 }

first_claim : (claim_next_created_order plain rider one_order).0 ≡ ok (some ridden_parcel)
unfolding opened sort_by
first_claim = refl

claim_exclusive_example :
    let s' = (claim_next_created_order plain rider one_order).1 in
    (Dict.get 7 s'.orders ≡ some ridden_parcel)
    × (ridden_parcel.status ≡ assigned)
    × ((t : Memory) (c' : Claim) (current : DeliveryOrder)
        → Later plain s' t
        → Dict.get 7 t.orders ≡ some current
        → (current.status ≡ assigned) ⊎ (current.status ≡ picked_up)
        → c'.courier_id ≡ 20
        → c'.tenant_id ≡ 1
        → claim_next_created_order plain c' t ≡ (err courier_already_busy, t))
    × ((t : Memory) (c' : Claim) (o' : DeliveryOrder)
        → Later plain s' t
        → (claim_next_created_order plain c' t).0 ≡ ok (some o')
        → o'.id ≢ 7)
claim_exclusive_example =
    claim_exclusive plain rider one_order ridden_parcel (Reached-IsConsistent one_order-Reached)
      first_claim

claim_takes_oldest_example :
    Answers plain rider one_order (claim_next_created_order plain rider one_order)
claim_takes_oldest_example = claim_takes_oldest plain rider one_order

list_visible_respects_access_example :
    ((xs : List DeliveryOrder) × (list_visible (query_of buyer 20 0 "created_at" none) one_order
        ≡ (ok xs, one_order))
      × IsListing buyer "created_at" none 20 0 one_order xs)
    ⊎ ((list_visible (query_of buyer 20 0 "created_at" none) one_order
          ≡ (err (value_error "unsupported sort field"), one_order))
        × (◌≢◌ {A = String} "created_at" "created_at")
        × (◌≢◌ {A = String} "created_at" "status"))
list_visible_respects_access_example =
    list_visible_respects_access buyer "created_at" none 20 0 one_order

made_parcel : Domain.create 7 100 5 1 "Nevsky 1" "Nevsky 2" 3 ≡ ok new_parcel
unfolding Domain.create
made_parcel = refl

given_parcel : Domain.assign new_parcel 20 ≡ ok ridden_parcel
unfolding Domain.assign
given_parcel = refl

lifecycle_example :
    (ridden_parcel.version ≡ 1 + 1)
    × (1 ≤ 3)
    × (ridden_parcel.status ≡ delivered → ◌≡◌ {A = ℕ} 1 3)
    × HasWeight ridden_parcel
    × SameIdentity new_parcel ridden_parcel
lifecycle_example =
    lifecycle 7 100 5 1 "Nevsky 1" "Nevsky 2" 3 made_parcel (taken 20 born given_parcel)

abbrev edited_parcel : DeliveryOrder
edited_parcel = record done_parcel { weight_grams = 4; version = 3 }

edited_done : Domain.update_details plain done_parcel (weight_grams 4 ∷ []) ≡ ok edited_parcel
unfolding Domain.update_details
edited_done = refl
