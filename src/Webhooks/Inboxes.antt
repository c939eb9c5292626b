-- ===== src/Webhooks/Inboxes.antt =====
-- The development inbox and the tables of PostgreSQL, side by side.
use innoprog_fastapi_deliver.Prelude.{
  ℕ, ◌≡◌, refl, ap₂, Bool, Option, none, some, List, [], ◌∷◌, number_eq, text_eq, ◌==◌, is_none,
  if◌then◌else◌, arith, Result, ok, err, Option-cases, Bool-cases, inl, inr,
}
use innoprog_fastapi_deliver.Runtime.{Payload}
use innoprog_fastapi_deliver.Dict
use innoprog_fastapi_deliver.Dict.{Dict, get-put}
use innoprog_fastapi_deliver.Errors.{Error}
use innoprog_fastapi_deliver.Outbox.{OutboxRow}
use innoprog_fastapi_deliver.Webhooks.{
  Records, PaymentTables, accept, accept_payment_webhook_once, same_payload, is_same_event,
  accepted_row,
}

-- The payload of an accepted payment event.
abbrev pub payment_of : Option OutboxRow → Option Payload
payment_of none = none
payment_of (some row) =
    if row.event_type == "payment.webhook.accepted" then some row.payload else none

-- The tables hold the records: each is claimed and waits in the outbox, and nothing else does.
abbrev pub Holds : Records → PaymentTables → ℕ → Type 0
Holds records t i =
    (is_none (Dict.get i t.inbox) ≡ is_none (Dict.get i records))
    × (is_none (Dict.get i t.outbox) ≡ is_none (Dict.get i records))
    × (payment_of (Dict.get i t.outbox) ≡ Dict.get i records)

abbrev pub Agrees : Records → PaymentTables → Type 0
Agrees records t = (i : ℕ) → Holds records t i

-- a delivery of an event: its id, its payload and the time
abbrev pub Delivery : Type 0
Delivery = ℕ × Payload × ℕ

abbrev pub accept_all : List Delivery → Records → List (Result Error Bool)
accept_all [] s = []
accept_all ((i, payload, now) ∷ ds) s = let (r, t) = accept i payload s in r ∷ accept_all ds t

-- A transaction that raises rolls back.
abbrev pub kept : PaymentTables → Result Error Bool × PaymentTables → PaymentTables
kept s (ok _, t) = t
kept s (err _, t) = s

abbrev pub accept_all_once : List Delivery → PaymentTables → List (Result Error Bool)
accept_all_once [] s = []
accept_all_once ((i, payload, now) ∷ ds) s =
    let o = accept_payment_webhook_once i payload now s in o.0 ∷ accept_all_once ds (kept s o)

same_event_lem :
    (payload existing : Payload) (o : Option OutboxRow)
    → payment_of o ≡ some existing
    → is_same_event payload o ≡ same_payload existing payload
same_event_lem payload existing none h = absurd (ground (arith, h))
same_event_lem payload existing (some row) h =
    elim (Bool-cases (row.event_type == "payment.webhook.accepted")) [
      | inl paid ↦ ground (arith, h, paid)
      | inr other ↦ absurd (ground (arith, h, other))
    ]

-- One delivery gives one answer on both.
same_answer :
    (i : ℕ) (payload : Payload) (now : ℕ) (s : Records) (t : PaymentTables)
    → Holds s t i
    → (accept_payment_webhook_once i payload now t).0 ≡ (accept i payload s).0
unfolding accept accept_payment_webhook_once
same_answer i payload now s t h = elim (Option-cases (Dict.get i s)) [
  | inl new ↦ ground (arith, new, h)
  | inr (existing, found) ↦
      ground (arith, found, h, same_event_lem payload existing (Dict.get i t.outbox))
]

Agrees-accept :
    (i : ℕ) (payload : Payload) (now : ℕ) (s : Records) (t : PaymentTables)
    → Agrees s t
    → Agrees (accept i payload s).1 (kept t (accept_payment_webhook_once i payload now t))
unfolding accept accept_payment_webhook_once
Agrees-accept i payload now s t h j = elim (Option-cases (Dict.get i s)) [
  | inl new ↦ ground (
    arith,
    new,
    h i,
    h j,
    get-put i j payload s,
    get-put i j (accepted_row payload now) t.outbox,
    get-put i j (record { event_type = "payment.webhook"; processed_at = now }) t.inbox,
  )
  | inr (existing, found) ↦
      ground (arith, found, h i, h j, same_event_lem payload existing (Dict.get i t.outbox))
]

-- From tables that hold the records of the development inbox, any deliveries get the same answers from
-- the tables as from that inbox: accepted once, then a duplicate, or a conflict for another payload.
pub payment_inboxes_agree :
    (ds : List Delivery) (s : Records) (t : PaymentTables)
    → Agrees s t
    → accept_all_once ds t ≡ accept_all ds s
payment_inboxes_agree [] s t h = refl
payment_inboxes_agree ((i, payload, now) ∷ ds) s t h =
    ap₂ (λ r rest. r ∷ rest) (same_answer i payload now s t (h i))
      (payment_inboxes_agree ds (accept i payload s).1
        (kept t (accept_payment_webhook_once i payload now t)) (Agrees-accept i payload now s t h))
