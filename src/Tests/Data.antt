-- ===== src/Tests/Data.antt =====
-- A plain runtime, and orders, commands and states that the tests share.
use Prim.Native.String.{◌++◌ as append}
use innoprog_fastapi_deliver.Prelude.{ℕ, zero, suc, String, none, [], ◌∷◌}
use innoprog_fastapi_deliver.Runtime.{Runtime, Json, Payload, text, number, null}
use innoprog_fastapi_deliver.Status.{created, cancelled}
use innoprog_fastapi_deliver.Domain.{DeliveryOrder}
use innoprog_fastapi_deliver.Commands.{CreateOrderCommand}
use innoprog_fastapi_deliver.Access.{Actor, customer}

abbrev pub tally : ℕ → String
tally zero = "."
tally (suc n) = append "i" (tally n)

abbrev pub shown_value : Json → String
shown_value (text t) = t
shown_value (number n) = tally n
shown_value null = "null"

abbrev pub dumped : Payload → String
dumped [] = ""
dumped ((k, v) ∷ p) = append k (append "=" (append (shown_value v) (append ";" (dumped p))))

-- Functions that the parameters may stand for.
abbrev pub plain : Runtime
plain = record {
  uuid_str = tally;
  isoformat = tally;
  casefold = λ t. t;
  json_dumps = dumped;
  sha256_hexdigest = λ t. t;
}

abbrev pub parcel : CreateOrderCommand
parcel = record {
  customer_id = 5;
  pickup_address = "Nevsky 1";
  destination_address = "Nevsky 2";
  weight_grams = 3;
}

abbrev pub new_parcel : DeliveryOrder
new_parcel = record {
  id = 7;
  tenant_id = 1;
  customer_id = 5;
  pickup_address = "Nevsky 1";
  destination_address = "Nevsky 2";
  weight_grams = 3;
  status = created;
  courier_id = none;
  version = 1;
  created_at = 100;
}

abbrev pub done_parcel : DeliveryOrder
done_parcel = record new_parcel { status = cancelled; version = 2 }

abbrev pub buyer : Actor
buyer = record { user_id = 5; role = customer; tenant_id = 1 }
