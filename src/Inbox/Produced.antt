-- ===== src/Inbox/Produced.antt =====
-- The consumers on the events that src/delivery_service/events.py produces.
use innoprog_fastapi_deliver.Prelude.{
  ℕ, ◌≡◌, false, none, ok, err, Result, number_eq, text_eq, ◌==◌,
}
use innoprog_fastapi_deliver.Runtime.{Runtime, Json, text}
use innoprog_fastapi_deliver.Dict
use innoprog_fastapi_deliver.Errors.{Error, key_error}
use innoprog_fastapi_deliver.Events.{OrderCreated, created_payload}
use innoprog_fastapi_deliver.Inbox.{
  OutboxEvent, Tables, atomically, claim, created_order, addressed, consume_order_created_once,
}

-- the outbox row of a created order
abbrev pub produced : Runtime → OrderCreated → OutboxEvent
produced py e = record {
  id = e.event_id;
  event_type = "order.created";
  payload = created_payload py e;
}

module _ {P : Type 0} (py : Runtime) (uuid_of : Json → Result Error ℕ) where
  -- Every event of a created order that is not claimed yet fails in `consume_order_created_once`, for
  -- want of the key "order_id", and its transaction leaves the tables as they were; so it is not
  -- claimed after any number of attempts either.
  pub created_event_is_unreadable :
      (e : OrderCreated) (now : ℕ) (s : Tables P)
      → Dict.get e.event_id s.inbox ≡ none
      → atomically (consume_order_created_once py uuid_of (produced py e) now) s
        ≡ (err (key_error "order_id"), s)
  unfolding atomically consume_order_created_once claim created_order created_payload Dict.get
  created_event_is_unreadable e now s new = rw new

module _ (py : Runtime) (uuid_of : Json → Result Error ℕ) where
  -- `dispatch_order_created_notification_once` reads from an event of a created order its order, its
  -- tenant and its customer, if `UUID` reads back the text of these three ids and the text of the
  -- order's id is not empty.
  pub dispatcher_reads_created :
      (e : OrderCreated)
      → uuid_of (text (py.uuid_str e.order_id)) ≡ ok e.order_id
      → uuid_of (text (py.uuid_str e.tenant_id)) ≡ ok e.tenant_id
      → uuid_of (text (py.uuid_str e.customer_id)) ≡ ok e.customer_id
      → (py.uuid_str e.order_id == "") ≡ false
      → addressed uuid_of (produced py e) ≡ ok (e.order_id, e.tenant_id, e.customer_id)
  unfolding addressed created_payload Dict.get
  dispatcher_reads_created e order tenant customer written = rw (written, order, tenant, customer)
