-- ===== src/Access/Decision.antt =====
-- Who is granted access to an order: the decision of access.py against the relations it names.
use innoprog_fastapi_deliver.Prelude.{ℕ, ◌≡◌, ◌↔◌, true, Option, some, arith}
use innoprog_fastapi_deliver.Access.{customer, courier, dispatcher, Actor, can_access_order}

-- The three relationships that grant access, each inside the order's tenant.
pub data Grants (a : Actor) (order_tenant_id customer_id : ℕ) (courier_id : Option ℕ) : Type 0 where
  as_dispatcher :
      a.tenant_id ≡ order_tenant_id
      → a.role ≡ dispatcher
      → Grants a order_tenant_id customer_id courier_id
  as_customer :
      a.tenant_id ≡ order_tenant_id
      → a.role ≡ customer
      → a.user_id ≡ customer_id
      → Grants a order_tenant_id customer_id courier_id
  as_courier :
      a.tenant_id ≡ order_tenant_id
      → a.role ≡ courier
      → courier_id ≡ some a.user_id
      → Grants a order_tenant_id customer_id courier_id

module _ (a : Actor) (order_tenant_id customer_id : ℕ) (courier_id : Option ℕ) where
  granted :
      Grants a order_tenant_id customer_id courier_id
      → can_access_order a order_tenant_id customer_id courier_id ≡ true
  unfolding can_access_order
  granted (as_dispatcher t r) = ground arith
  granted (as_customer t r u) = ground arith
  granted (as_courier t r c) = ground arith

  grants :
      can_access_order a order_tenant_id customer_id courier_id ≡ true
      → Grants a order_tenant_id customer_id courier_id
  unfolding can_access_order
  grants h = grind (arith, as_dispatcher, as_customer, as_courier)

  pub access_iff_granted :
      (can_access_order a order_tenant_id customer_id courier_id ≡ true)
      ↔ Grants a order_tenant_id customer_id courier_id
  access_iff_granted = (grants, granted)
