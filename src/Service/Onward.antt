-- ===== src/Service/Onward.antt =====
-- What later calls of `OrderService` leave of a stored order: its version never shrinks, and once it has
-- left `created` it keeps its courier and never returns to `created`.
use innoprog_fastapi_deliver.Prelude.{
  ℕ, ◌≤◌, ◌≡◌, ◌≢◌, refl, subst, ◌==◌, true, none, some, arith, inl, inr, number_eq, text_eq,
  Bool-cases,
}
use innoprog_fastapi_deliver.Dict
use innoprog_fastapi_deliver.Dict.{Dict, get-put}
use innoprog_fastapi_deliver.Status.{OrderStatus, created, assigned, allows}
use innoprog_fastapi_deliver.Domain.{DeliveryOrder}
use innoprog_fastapi_deliver.Repository.Writes.{moved, given_to}

-- `o'` is what calls may make of `o`.
pub record Onward (o o' : DeliveryOrder) : Type 0 where
  pub tenant_id : o'.tenant_id ≡ o.tenant_id
  pub grows : o.version ≤ o'.version
  pub stays_taken : o.status ≢ created → o'.status ≢ created
  pub keeps_courier : o.status ≢ created → o'.courier_id ≡ o.courier_id

Onward-refl : (o : DeliveryOrder) → Onward o o
Onward-refl o = record {
  tenant_id = refl;
  grows = omega arith;
  stays_taken = λ taken. taken;
  keeps_courier = λ taken. refl;
}

pub Onward-then : (o p q : DeliveryOrder) → Onward o p → Onward p q → Onward o q
Onward-then o p q first second = record {
  tenant_id = ground (arith, first.tenant_id, second.tenant_id);
  grows = omega (arith, first.grows, second.grows);
  stays_taken = λ taken. second.stays_taken (first.stays_taken taken);
  keeps_courier = λ taken.
      ground (arith, first.keeps_courier taken, second.keeps_courier (first.stays_taken taken));
}

-- Each stored order is still stored, further on.
pub data Advances (orders orders' : Dict ℕ DeliveryOrder) : Type 0 where
  advances :
      ((k : ℕ) (o : DeliveryOrder)
        → Dict.get k orders ≡ some o
        → (o' : DeliveryOrder) × (Dict.get k orders' ≡ some o') × Onward o o')
      → Advances orders orders'

pub Advances-at :
    {orders orders' : Dict ℕ DeliveryOrder} (k : ℕ) (o : DeliveryOrder)
    → Advances orders orders'
    → Dict.get k orders ≡ some o
    → (o' : DeliveryOrder) × (Dict.get k orders' ≡ some o') × Onward o o'
Advances-at k o (advances f) found = f k o found

pub Advances-refl : (orders : Dict ℕ DeliveryOrder) → Advances orders orders
Advances-refl orders = advances (λ k o found. (o, found, Onward-refl o))

pub put-Advances :
    (old new : DeliveryOrder) (orders : Dict ℕ DeliveryOrder)
    → Dict.get new.id orders ≡ some old
    → Onward old new
    → Advances orders (Dict.put new.id new orders)
put-Advances old new orders here step = advances (λ k o found. elim (Bool-cases (new.id == k)) [
  | inl at_k ↦
      let is_old : old ≡ o = ground (arith, at_k, found, here) in
      (
        new,
        ground (arith, at_k, get-put new.id k new orders),
        subst (λ x. Onward x new) is_old step,
      )
  | inr other ↦ (o, ground (arith, other, found, get-put new.id k new orders), Onward-refl o)
])

pub add-Advances :
    (new : DeliveryOrder) (orders : Dict ℕ DeliveryOrder)
    → Dict.get new.id orders ≡ none
    → Advances orders (Dict.put new.id new orders)
add-Advances new orders unused =
    advances
      (λ k o found. (o, ground (arith, found, unused, get-put new.id k new orders), Onward-refl o))

never_to_created : (from to : OrderStatus) → allows from to ≡ true → to ≢ created
never_to_created from to legal = ground (arith, legal)

pub assigned_from_created : (from : OrderStatus) → allows from assigned ≡ true → from ≡ created
assigned_from_created from legal = ground (arith, legal)

pub moved-Onward :
    (current : DeliveryOrder) (target : OrderStatus)
    → allows current.status target ≡ true
    → Onward current (moved current target)
moved-Onward current target legal = record {
  tenant_id = refl;
  grows = omega arith;
  stays_taken = λ taken. never_to_created current.status target legal;
  keeps_courier = λ taken. refl;
}

pub given_to-Onward :
    (current : DeliveryOrder) (courier_id : ℕ)
    → current.status ≡ created
    → Onward current (given_to current courier_id)
given_to-Onward current courier_id waiting = record {
  tenant_id = refl;
  grows = omega arith;
  stays_taken = λ taken. absurd (taken waiting);
  keeps_courier = λ taken. absurd (taken waiting);
}
