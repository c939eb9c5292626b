-- ===== src/Commands.antt =====
-- src/delivery_service/commands.py: the inputs of the use cases.
use innoprog_fastapi_deliver.Prelude.{ℕ, String, Option, none, some, List, [], ◌∷◌, ◌++◌}
use innoprog_fastapi_deliver.Runtime.{Runtime, Payload, text, number}
use innoprog_fastapi_deliver.Status.{OrderStatus}
use innoprog_fastapi_deliver.Domain.{Change, pickup_address, destination_address, weight_grams}

pub record CreateOrderCommand : Type 0 where
  pub customer_id : ℕ
  pub pickup_address : String
  pub destination_address : String
  pub weight_grams : ℕ

-- CreateOrderCommand.canonical_payload
unfoldable pub canonical_payload : Runtime → CreateOrderCommand → Payload
canonical_payload py c =
    ("customer_id", text (py.uuid_str c.customer_id))
    ∷ ("pickup_address", text c.pickup_address)
    ∷ ("destination_address", text c.destination_address)
    ∷ ("weight_grams", number c.weight_grams)
    ∷ []

pub record UpdateOrderCommand : Type 0 where
  pub pickup_address : Option String
  pub destination_address : Option String
  pub weight_grams : Option ℕ

abbrev given : {A : Type 0} → (A → Change) → Option A → List Change
given change none = []
given change (some value) = change value ∷ []

-- UpdateOrderCommand.changes: the fields that are not None, in order
unfoldable pub changes : UpdateOrderCommand → List Change
changes c =
    given pickup_address c.pickup_address
    ++ (given destination_address c.destination_address ++ given weight_grams c.weight_grams)

pub record TransitionOrderCommand : Type 0 where
  pub target : OrderStatus
  pub expected_version : ℕ
  pub actor_id : ℕ
  pub actor_role : String
  pub correlation_id : String
