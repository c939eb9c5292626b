-- ===== src/Service/Claiming.antt =====
-- What a claim by a courier promises to the claims after it, whatever calls of `OrderService` come
-- between.
use innoprog_fastapi_deliver.Prelude.{
  ◌≡◌, ◌≢◌, ◌⊎◌, refl, true, some, arith, ok, err, any_of, any_of-Among, number_eq,
}
use innoprog_fastapi_deliver.Runtime.{Runtime}
use innoprog_fastapi_deliver.Dict
use innoprog_fastapi_deliver.Dict.{values, get-put_self}
use innoprog_fastapi_deliver.Dict.Entries.{Among-of_get}
use innoprog_fastapi_deliver.Errors.{courier_already_busy}
use innoprog_fastapi_deliver.Status.{created, assigned, picked_up}
use innoprog_fastapi_deliver.Domain.{DeliveryOrder}
use innoprog_fastapi_deliver.Ports.{Claim}
use innoprog_fastapi_deliver.Repository.{Memory, is_active, claim_next_created_order}
use innoprog_fastapi_deliver.Repository.Invariant.{IsConsistent, stored_of_Among}
use innoprog_fastapi_deliver.Repository.Claims.{claim_lem, claim_takes_oldest}
use innoprog_fastapi_deliver.Repository.Exclusive.{Answers-Handed, claim-IsConsistent}
use innoprog_fastapi_deliver.Service.Calls.{Later, Later-IsConsistent}
use innoprog_fastapi_deliver.Service.Onward.{Advances-at}
use innoprog_fastapi_deliver.Service.Advancing.{Later-Advances}

-- An order that was handed over is stored, assigned to the courier in the courier's tenant.
handed_facts :
    (py : Runtime) (c : Claim) (s : Memory) (o : DeliveryOrder)
    → (claim_next_created_order py c s).0 ≡ ok (some o)
    → (Dict.get o.id (claim_next_created_order py c s).1.orders ≡ some o)
      × (o.status ≡ assigned)
      × (o.courier_id ≡ some c.courier_id)
      × (o.tenant_id ≡ c.tenant_id)
handed_facts py c s o h =
    let (candidate, old, is_o, is_s) = Answers-Handed py c s o (claim_takes_oldest py c s) h in
    (
      rw is_s (get-put_self o.id o s.orders),
      ground (arith, is_o),
      ground (arith, is_o),
      ground (arith, is_o, old.waits.tenant),
    )

-- A courier who carries a stored order that is under way is refused.
busy_refused :
    (py : Runtime) (c : Claim) (t : Memory) (current : DeliveryOrder)
    → Dict.get current.id t.orders ≡ some current
    → current.tenant_id ≡ c.tenant_id
    → current.courier_id ≡ some c.courier_id
    → (current.status ≡ assigned) ⊎ (current.status ≡ picked_up)
    → claim_next_created_order py c t ≡ (err courier_already_busy, t)
unfolding is_active
busy_refused py c t current found tenant carries under_way =
    let active : is_active c current ≡ true = ground (arith, tenant, carries, under_way) in
    let busy : any_of (is_active c) (values t.orders) ≡ true =
      any_of-Among (is_active c) (values t.orders) current
        (Among-of_get current.id t.orders current found) active in
    rw (claim_lem, busy) refl

-- What a claim hands over was waiting before it.
waited :
    (py : Runtime) (c : Claim) (t : Memory) (o : DeliveryOrder)
    → IsConsistent py t
    → (claim_next_created_order py c t).0 ≡ ok (some o)
    → (old : DeliveryOrder) × (Dict.get o.id t.orders ≡ some old) × (old.status ≡ created)
waited py c t o consistent h =
    let (candidate, old, is_o, _) = Answers-Handed py c t o (claim_takes_oldest py c t) h in
    (
      candidate,
      ground (arith, is_o, stored_of_Among t candidate consistent old.waits.among),
      old.waits.status,
    )

-- When a claim has handed over an order, the order is stored and assigned. After any further calls of
-- the use cases, no claim hands over that order again; and while the order is still assigned or picked
-- up, every claim by the same courier in the same tenant is refused with nothing written.
pub claim_exclusive :
    (py : Runtime) (c : Claim) (s : Memory) (o : DeliveryOrder)
    → IsConsistent py s
    → (claim_next_created_order py c s).0 ≡ ok (some o)
    → let s' = (claim_next_created_order py c s).1 in
      (Dict.get o.id s'.orders ≡ some o)
      × (o.status ≡ assigned)
      × ((t : Memory) (c' : Claim) (current : DeliveryOrder)
          → Later py s' t
          → Dict.get o.id t.orders ≡ some current
          → (current.status ≡ assigned) ⊎ (current.status ≡ picked_up)
          → c'.courier_id ≡ c.courier_id
          → c'.tenant_id ≡ c.tenant_id
          → claim_next_created_order py c' t ≡ (err courier_already_busy, t))
      × ((t : Memory) (c' : Claim) (o' : DeliveryOrder)
          → Later py s' t
          → (claim_next_created_order py c' t).0 ≡ ok (some o')
          → o'.id ≢ o.id)
claim_exclusive py c s o consistent h =
    let (stored_now, taken, courier, tenant) = handed_facts py c s o h in
    let consistent' = claim-IsConsistent c s consistent in
    (
      stored_now,
      taken,
      (λ t c' current later found under_way same_courier same_tenant.
          let (next, there, onward) =
            Advances-at o.id o (Later-Advances consistent' later) stored_now in
          let keyed = (Later-IsConsistent consistent' later).keyed o.id current found in
          let left : o.status ≢ created = ground (arith, taken) in
          busy_refused py c' t current (ground (arith, keyed, found))
            (ground (arith, found, there, onward.tenant_id, tenant, same_tenant))
            (ground (arith, found, there, onward.keeps_courier left, courier, same_courier))
            under_way),
      λ t c' o' later h' again.
          let (next, there, onward) =
            Advances-at o.id o (Later-Advances consistent' later) stored_now in
          let (old, waiting_at, waiting) =
            waited py c' t o' (Later-IsConsistent consistent' later) h' in
          let left : o.status ≢ created = ground (arith, taken) in
          onward.stays_taken left (ground (arith, again, waiting_at, there, waiting)),
    )
