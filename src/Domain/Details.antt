-- ===== src/Domain/Details.antt =====
-- `update_details` of domain.py: what an edit may change, and what it checks.
use innoprog_fastapi_deliver.Prelude.{◌+◌, ◌≤◌, ◌<◌, ◌≡◌, ◌≢◌, List, [], ◌∷◌, arith, text_eq, ok}
use text.Mathlib.TextEquality.{eq_iff}
use innoprog_fastapi_deliver.Runtime.{Runtime}
use innoprog_fastapi_deliver.Domain.{
  DeliveryOrder, Change, pickup_address, destination_address, weight_grams, other, replace_all,
  checked, update_details,
}

-- What an edit leaves alone.
pub record SameIdentity (a b : DeliveryOrder) : Type 0 where
  pub id : b.id ≡ a.id
  pub tenant_id : b.tenant_id ≡ a.tenant_id
  pub customer_id : b.customer_id ≡ a.customer_id
  pub created_at : b.created_at ≡ a.created_at

pub record SameProgress (a b : DeliveryOrder) : Type 0 where
  pub status : b.status ≡ a.status
  pub courier_id : b.courier_id ≡ a.courier_id

-- What every stored order satisfies.
pub record HasWeight (o : DeliveryOrder) : Type 0 where
  pub positive : 0 < o.weight_grams
  pub bounded : o.weight_grams ≤ 100000

replace_all-SameIdentity :
    (o : DeliveryOrder) (cs : List Change) → SameIdentity o (replace_all o cs)
replace_all-SameIdentity o [] = ground arith
replace_all-SameIdentity o (pickup_address a ∷ cs) =
    ground (arith, replace_all-SameIdentity (record o { pickup_address = a }) cs)
replace_all-SameIdentity o (destination_address a ∷ cs) =
    ground (arith, replace_all-SameIdentity (record o { destination_address = a }) cs)
replace_all-SameIdentity o (weight_grams w ∷ cs) =
    ground (arith, replace_all-SameIdentity (record o { weight_grams = w }) cs)
replace_all-SameIdentity o (other _ ∷ cs) = replace_all-SameIdentity o cs

replace_all-SameProgress :
    (o : DeliveryOrder) (cs : List Change) → SameProgress o (replace_all o cs)
replace_all-SameProgress o [] = ground arith
replace_all-SameProgress o (pickup_address a ∷ cs) =
    ground (arith, replace_all-SameProgress (record o { pickup_address = a }) cs)
replace_all-SameProgress o (destination_address a ∷ cs) =
    ground (arith, replace_all-SameProgress (record o { destination_address = a }) cs)
replace_all-SameProgress o (weight_grams w ∷ cs) =
    ground (arith, replace_all-SameProgress (record o { weight_grams = w }) cs)
replace_all-SameProgress o (other _ ∷ cs) = replace_all-SameProgress o cs

-- What an accepted edit gives.
pub record IsEdit (py : Runtime) (o o' : DeliveryOrder) : Type 0 where
  pub identity : SameIdentity o o'
  pub progress : SameProgress o o'
  pub version : o'.version ≡ o.version + 1
  pub weight : HasWeight o'
  pub apart : py.casefold o'.pickup_address ≢ py.casefold o'.destination_address

checked_ok :
    (py : Runtime) (u : DeliveryOrder) {o' : DeliveryOrder}
    → checked py u ≡ ok o'
    → (o' ≡ u) × HasWeight u × (py.casefold u.pickup_address ≢ py.casefold u.destination_address)
checked_ok py u h =
    ground (arith, eq_iff (py.casefold u.pickup_address) (py.casefold u.destination_address))

-- An edit that is accepted advances the version by exactly one, leaves the identity, the status and
-- the courier of the order alone, and its result has a weight of 1 to 100000 and two addresses that
-- differ when case is folded.
pub update_details-IsEdit :
    (py : Runtime) (o : DeliveryOrder) (cs : List Change) {o' : DeliveryOrder}
    → update_details py o cs ≡ ok o'
    → IsEdit py o o'
unfolding update_details
update_details-IsEdit py o cs {o'} h =
    let u = record (replace_all o cs) { version = o.version + 1 } in
    ground (
      arith,
      checked_ok py u {o' = o'},
      replace_all-SameIdentity o cs,
      replace_all-SameProgress o cs,
    )
