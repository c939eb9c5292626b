-- ===== src/Inbox/Once.antt =====
-- Deliveries of events, in any order and number, against the notifications they leave.
use innoprog_fastapi_deliver.Prelude.{
  ℕ, ◌+◌, suc, ◌≡◌, refl, sym, subst, Bool, none, some, arith, if◌then◌else◌, List, [], ◌∷◌, ◌++◌,
  number_eq, ◌==◌, ok, err, Exec, ◌⊎◌, Result, Result-cases, is_none, String, Option-cases,
  Bool-cases, inl, inr,
}
use innoprog_fastapi_deliver.Runtime.{Runtime, Json}
use innoprog_fastapi_deliver.Dict
use innoprog_fastapi_deliver.Dict.{get-put}
use innoprog_fastapi_deliver.Errors.{Error}
use innoprog_fastapi_deliver.Inbox.{
  OutboxEvent, NotificationRow, Tables, Send, pending, received, concluded, created_message,
  created_order, addressed, is_enabled, atomically, claim, consume_order_created_once,
  dispatch_order_created_notification_once, ConsumerInboxRow,
}

-- the number of notifications of an event
abbrev pub told : ℕ → List NotificationRow → ℕ
told event_id [] = 0
told event_id (n ∷ ns) =
    let rest = told event_id ns in if n.event_id == event_id then suc rest else rest

told-append :
    (e : ℕ) (ns : List NotificationRow) (n : NotificationRow)
    → told e (ns ++ n ∷ []) ≡ told e ns + (if n.event_id == e then 1 else 0)
told-append e [] n = ground arith
told-append e (x ∷ ns) n = ground (arith, told-append e ns n)

module _ {P : Type 0} (py : Runtime) (uuid_of : Json → Result Error ℕ) (send : Send P) where
  -- An event has one notification when it is claimed, and none before.
  abbrev pub IsTold : Tables P → Type 0
  IsTold s = (e : ℕ) → told e s.notifications ≡ (if is_none (Dict.get e s.inbox) then 0 else 1)

  abbrev pub consume : OutboxEvent → ℕ → Exec (Tables P) Error Bool
  consume event now = atomically (consume_order_created_once py uuid_of event now)

  abbrev pub dispatch : OutboxEvent → ℕ → String → Exec (Tables P) Error Bool
  dispatch event now channel =
      atomically (dispatch_order_created_notification_once py uuid_of send event now channel)

  -- What one delivery leaves: the tables as they were, or a new claim with one notification.
  abbrev Leaves : ℕ → Tables P → Tables P → Type 0
  Leaves id s t =
      ((t.inbox ≡ s.inbox) × (t.notifications ≡ s.notifications))
      ⊎ ((row : ConsumerInboxRow) × (n : NotificationRow) × (Dict.get id s.inbox ≡ none)
          × (n.event_id ≡ id)
          × (t.inbox ≡ Dict.put id row s.inbox)
          × (t.notifications ≡ s.notifications ++ n ∷ []))

  Leaves-IsTold : (id : ℕ) (s t : Tables P) → Leaves id s t → IsTold s → IsTold t
  Leaves-IsTold id s t (inl (same, same')) h e = rw (same, same') (h e)
  Leaves-IsTold id s t (inr (row, n, new, own, written, added)) h e =
      rw (written, added)
        (ground (
          arith,
          new,
          own,
          h e,
          number_eq.same_iff id e,
          get-put id e row s.inbox,
          told-append e s.notifications n,
        ))

  consume-Leaves :
      (event : OutboxEvent) (now : ℕ) (s : Tables P) → Leaves event.id s (consume event now s).1
  unfolding atomically consume_order_created_once claim
  consume-Leaves event now s = elim (Option-cases (Dict.get event.id s.inbox)) [
    | inr (row, old) ↦ rw old (inl (refl, refl))
    | inl new ↦ elim (Result-cases (created_order uuid_of event)) [
      | inr (e, refused) ↦ rw (new, refused) (inl (refl, refl))
      | inl (order_id, read) ↦
          rw (new, read)
            (inr (
              record { event_type = event.event_type; processed_at = now },
              pending py "email" event.id order_id,
              refl,
              refl,
              refl,
              refl,
            ))
    ]
  ]

  receipt-Leaves :
      (event : OutboxEvent) (order_id now : ℕ) (channel : String) (row : ConsumerInboxRow)
      (s : Tables P) (answer : Result Error String × P)
      → Dict.get event.id s.inbox ≡ none
      → let after =
          received py uuid_of event.id order_id now channel
            (record s { inbox = Dict.put event.id row s.inbox })
            answer in
        Leaves event.id s (concluded s after).1
  receipt-Leaves event order_id now channel row s (err e, provider) new = inl (refl, refl)
  receipt-Leaves event order_id now channel row s (ok message_id, provider) new = inr (
    row,
    record (pending py channel event.id order_id) {
      status = "sent";
      provider_message_id = some message_id;
      sent_at = some now;
    },
    new,
    refl,
    refl,
    refl,
  )

  dispatch-Leaves :
      (event : OutboxEvent) (now : ℕ) (channel : String) (s : Tables P)
      → Leaves event.id s (dispatch event now channel s).1
  unfolding atomically dispatch_order_created_notification_once claim
  dispatch-Leaves event now channel s = elim (Result-cases (addressed uuid_of event)) [
    | inr (e, refused) ↦ rw refused (inl (refl, refl))
    | inl ((order_id, tenant_id, customer_id), read) ↦
        elim (Option-cases (Dict.get event.id s.inbox)) [
          | inr (row, old) ↦ rw (read, old) (inl (refl, refl))
          | inl new ↦ elim (Bool-cases (is_enabled tenant_id customer_id channel s.preferences)) [
            | inr muted ↦
                rw (read, new, muted)
                  (inr (
                    record { event_type = event.event_type; processed_at = now },
                    record (pending py channel event.id order_id) { status = "skipped" },
                    refl,
                    refl,
                    refl,
                    refl,
                  ))
            | inl wanted ↦
                let row : ConsumerInboxRow = record {
                  event_type = event.event_type;
                  processed_at = now;
                } in
                let answer =
                  send (py.uuid_str customer_id) (created_message py order_id)
                    (py.uuid_str event.id) s.provider in
                let eq : dispatch event now channel s
                    ≡ concluded s (
                        received py uuid_of event.id order_id now channel
                          (record s { inbox = Dict.put event.id row s.inbox }) answer) =
                  rw (read, new, wanted) in
                subst (λ t. Leaves event.id s t.1) (sym eq)
                  (receipt-Leaves event order_id now channel row s answer new)
          ]
        ]
  ]

  -- a delivery to one of the two consumers
  pub data Delivery : Type 0 where
    to_consumer : OutboxEvent → ℕ → Delivery
    to_dispatcher : OutboxEvent → ℕ → String → Delivery

  abbrev pub deliver : Delivery → Tables P → Tables P
  deliver (to_consumer event now) s = (consume event now s).1
  deliver (to_dispatcher event now channel) s = (dispatch event now channel s).1

  abbrev pub deliver_all : List Delivery → Tables P → Tables P
  deliver_all [] s = s
  deliver_all (d ∷ ds) s = deliver_all ds (deliver d s)

  deliver-IsTold : (d : Delivery) (s : Tables P) → IsTold s → IsTold (deliver d s)
  deliver-IsTold (to_consumer event now) s =
      Leaves-IsTold event.id s (consume event now s).1 (consume-Leaves event now s)
  deliver-IsTold (to_dispatcher event now channel) s =
      Leaves-IsTold event.id s (dispatch event now channel s).1
        (dispatch-Leaves event now channel s)

  -- From tables where every claimed event has one notification and no other has any, after any
  -- deliveries to the two consumers, repeated, refused and failed ones among them, each event still has
  -- one notification when it is claimed and none otherwise.
  pub IsTold-deliver_all :
      (ds : List Delivery) (s : Tables P) → IsTold s → IsTold (deliver_all ds s)
  IsTold-deliver_all [] s h = h
  IsTold-deliver_all (d ∷ ds) s h = IsTold-deliver_all ds (deliver d s) (deliver-IsTold d s h)
