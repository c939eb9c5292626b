-- ===== src/Inbox.antt =====
-- The consumers that claim an event in the table `consumer_inbox`: src/delivery_service/outbox.py,
-- `consume_order_created_once` and `accept_payment_webhook_once`, and
-- src/delivery_service/notifications.py. A table is what it holds by its primary key; the caller's
-- transaction is `atomically`. `UUID(str(v))` and the provider are arguments.
pub mod Once
pub mod Produced
use Prim.Native.String.{◌++◌ as append}
use innoprog_fastapi_deliver.Prelude.{
  ℕ, String, Bool, true, false, not, ◌&&◌, ◌||◌, Option, none, some, List, [], ◌∷◌, ◌++◌, number_eq,
  text_eq, ◌==◌, ◌!=◌, is_none, if◌then◌else◌, Exec, Result, ok, err, pure, raise, lift, gets,
  modify, raise_if, ◌>>=◌, ◌>>◌,
}
use innoprog_fastapi_deliver.Runtime.{Runtime, Json, Payload, text, number, null}
use innoprog_fastapi_deliver.Dict
use innoprog_fastapi_deliver.Dict.{Dict}
use innoprog_fastapi_deliver.Errors.{Error, value_error, key_error}

pub record OutboxEvent : Type 0 where
  pub id : ℕ
  pub event_type : String
  pub payload : Payload

-- db.NotificationRow without its generated id
pub record NotificationRow : Type 0 where
  pub event_id : ℕ
  pub order_id : ℕ
  pub message : String
  pub channel : String
  pub status : String
  pub provider_message_id : Option String
  pub sent_at : Option ℕ

-- db.NotificationPreferenceRow without its generated id
pub record NotificationPreferenceRow : Type 0 where
  pub tenant_id : ℕ
  pub user_id : ℕ
  pub channel : String
  pub enabled : Bool

pub record ConsumerInboxRow : Type 0 where
  pub event_type : String
  pub processed_at : ℕ

-- the tables that the consumers touch, and the state of the notification provider
pub record Tables (P : Type 0) : Type 0 where
  pub inbox : Dict ℕ ConsumerInboxRow
  pub notifications : List NotificationRow
  pub preferences : List NotificationPreferenceRow
  pub provider : P

-- `provider.send`: recipient, message and idempotency key
abbrev pub Send : Type 0 → Type 0
Send P = String → String → String → Exec P Error String

-- A transaction that an exception leaves has written nothing to the tables. What the provider did is
-- outside of it.
abbrev pub concluded :
    {P : Type 0} {A : Type 0} → Tables P → Result Error A × Tables P → Result Error A × Tables P
concluded s (ok a, t) = (ok a, t)
concluded s (err e, t) = (err e, record s { provider = t.provider })

unfoldable pub atomically :
    {P : Type 0} {A : Type 0} → Exec (Tables P) Error A → Exec (Tables P) Error A
atomically m s = concluded s (m s)

-- statements that read a value and may raise
abbrev pub and_then : {A B : Type 0} → Result Error A → (A → Result Error B) → Result Error B
and_then (ok a) f = f a
and_then (err e) f = err e

-- `payload[key]`
abbrev pub field : String → Payload → Result Error Json
field key payload = elim (Dict.get key payload) [ none ↦ err (key_error key) | some v ↦ ok v ]

-- `bool(v)`
abbrev pub is_truthy : Json → Bool
is_truthy (text t) = t != ""
is_truthy (number n) = n != 0
is_truthy null = false

-- `payload.get(first) or payload[second]`
abbrev pub either_field : String → String → Payload → Result Error Json
either_field first second payload = elim (Dict.get first payload) [
  | none ↦ field second payload
  | some v ↦ if is_truthy v then ok v else field second payload
]

abbrev pub created_message : Runtime → ℕ → String
created_message py order_id = append "Order " (append (py.uuid_str order_id) " was created")

abbrev pub is_enabled : ℕ → ℕ → String → List NotificationPreferenceRow → Bool
is_enabled tenant_id user_id channel [] = true
is_enabled tenant_id user_id channel (p ∷ ps) =
    let rest = is_enabled tenant_id user_id channel ps in
    if p.tenant_id == tenant_id && p.user_id == user_id && p.channel == channel
    then p.enabled
    else rest

abbrev pub pending : Runtime → String → ℕ → ℕ → NotificationRow
pending py channel event_id order_id = record {
  event_id = event_id;
  order_id = order_id;
  message = created_message py order_id;
  channel = channel;
  status = "pending";
  provider_message_id = none;
  sent_at = none;
}

module _ (uuid_of : Json → Result Error ℕ) where
  -- the checks and the reads between the claim and the row
  unfoldable pub created_order : OutboxEvent → Result Error ℕ
  created_order event =
      if event.event_type != "order.created"
      then err (value_error "unsupported outbox event")
      else and_then (field "order_id" event.payload) uuid_of

  -- the check and the reads before the claim: order, tenant and customer
  unfoldable pub addressed : OutboxEvent → Result Error (ℕ × ℕ × ℕ)
  addressed event =
      if event.event_type != "order.created"
      then err (value_error "unsupported notification event")
      else and_then (and_then (either_field "aggregate_id" "order_id" event.payload) uuid_of)
          λ order_id. and_then (and_then (field "tenant_id" event.payload) uuid_of) λ tenant_id.
            and_then (and_then (field "customer_id" event.payload) uuid_of)
              λ customer_id. ok (order_id, tenant_id, customer_id)

module _ {P : Type 0} where
  -- `insert(...).on_conflict_do_nothing(...).returning(...)`: whether the row is new
  unfoldable pub claim : ℕ → String → ℕ → Exec (Tables P) Error Bool
  claim event_id event_type now s =
      if is_none (Dict.get event_id s.inbox)
      then (
        ok true,
        record s {
          inbox =
              Dict.put event_id (record { event_type = event_type; processed_at = now }) s.inbox;
        },
      )
      else (ok false, s)

  abbrev pub add_notification : NotificationRow → Exec (Tables P) Error (Unit {0})
  add_notification row = modify (λ s. record s { notifications = s.notifications ++ row ∷ [] })

  module _ (py : Runtime) (uuid_of : Json → Result Error ℕ) where
    abbrev pub consume_claimed : OutboxEvent → Bool → Exec (Tables P) Error Bool
    consume_claimed event false = pure false
    consume_claimed event true = do
      order_id ← lift (created_order uuid_of event)
      add_notification (pending py "email" event.id order_id)
      pure true

    unfoldable pub consume_order_created_once : OutboxEvent → ℕ → Exec (Tables P) Error Bool
    unfolding claim
    consume_order_created_once event now = do
      claimed ← claim event.id event.event_type now
      consume_claimed event claimed

    -- The row is flushed before the provider is called, and completed in place with its receipt.
    abbrev pub received :
        ℕ → ℕ → ℕ → String → Tables P → Result Error String × P → Result Error Bool × Tables P
    received event_id order_id now channel s (err e, provider) = (
      err e,
      record s {
        provider = provider;
        notifications = s.notifications ++ pending py channel event_id order_id ∷ [];
      },
    )
    received event_id order_id now channel s (ok message_id, provider) = (
      ok true,
      record s {
        provider = provider;
        notifications =
            s.notifications
            ++ record (pending py channel event_id order_id) {
              status = "sent";
              provider_message_id = some message_id;
              sent_at = some now;
            }
              ∷ [];
      },
    )

    abbrev pub notify : Send P → ℕ → ℕ → ℕ → ℕ → String → Bool → Exec (Tables P) Error Bool
    notify send event_id order_id customer_id now channel false s = (
      ok true,
      record s {
        notifications =
            s.notifications
            ++ record (pending py channel event_id order_id) { status = "skipped" } ∷ [];
      },
    )
    notify send event_id order_id customer_id now channel true s =
        received event_id order_id now channel s (
          send (py.uuid_str customer_id) (created_message py order_id) (py.uuid_str event_id)
            s.provider)

    abbrev pub dispatch_claimed :
        Send P → ℕ → ℕ → ℕ → ℕ → ℕ → String → Bool → Exec (Tables P) Error Bool
    dispatch_claimed send event_id order_id tenant_id customer_id now channel false = pure false
    dispatch_claimed send event_id order_id tenant_id customer_id now channel true = do
      enabled ← gets (λ s. is_enabled tenant_id customer_id channel s.preferences)
      notify send event_id order_id customer_id now channel enabled

    unfoldable pub dispatch_order_created_notification_once :
        Send P → OutboxEvent → ℕ → String → Exec (Tables P) Error Bool
    unfolding claim
    dispatch_order_created_notification_once send event now channel = do
      (order_id, tenant_id, customer_id) ← lift (addressed uuid_of event)
      claimed ← claim event.id event.event_type now
      dispatch_claimed send event.id order_id tenant_id customer_id now channel claimed
