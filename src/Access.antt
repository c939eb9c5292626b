-- ===== src/Access.antt =====
-- src/delivery_service/access.py: roles, actors and the decision on access to an order.
pub mod Decision
use Prim.Native.String.{◌++◌}
use innoprog_fastapi_deliver.Prelude.{
  ℕ, String, ◌≡◌, ◌↔◌, Bool, true, false, Option, arith, HasEquality, number_eq, ◌==◌, ◌!=◌,
  is_value, if◌then◌else◌,
}
use innoprog_fastapi_deliver.Runtime.{Runtime}

abbrev pub default_tenant_id : ℕ
default_tenant_id = 1

pub data Role : Type 0 where
  customer courier dispatcher : Role

abbrev pub role_value : Role → String
role_value customer = "customer"
role_value courier = "courier"
role_value dispatcher = "dispatcher"

abbrev pub same_role : Role → Role → Bool
same_role customer customer = true
same_role courier courier = true
same_role dispatcher dispatcher = true
same_role _ _ = false

pub same_role_iff : (a b : Role) → (same_role a b ≡ true) ↔ (a ≡ b)
same_role_iff a b = ground arith

instance abbrev pub role_eq : HasEquality Role
role_eq = record { same = same_role; same_iff = same_role_iff }

pub record Actor : Type 0 where
  pub user_id : ℕ
  pub role : Role
  pub tenant_id : ℕ

unfoldable pub subject : Runtime → Actor → String
subject py actor = role_value actor.role ++ (":" ++ py.uuid_str actor.user_id)

unfoldable pub can_access_order : Actor → ℕ → ℕ → Option ℕ → Bool
can_access_order actor order_tenant_id customer_id courier_id =
    if actor.tenant_id != order_tenant_id
    then false
    else if actor.role == dispatcher
    then true
    else if actor.role == customer
    then actor.user_id == customer_id
    else if actor.role == courier
    then is_value courier_id actor.user_id
    else false
