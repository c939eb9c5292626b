-- ===== src/Tests/Notices.antt =====
-- The consumers at concrete inputs.
use innoprog_fastapi_deliver.Prelude.{
  ℕ, ◌+◌, ◌≡◌, refl, none, List, [], ◌∷◌, ok, err, Result, text_eq, number_eq, ◌==◌, if◌then◌else◌,
  is_none,
}
use innoprog_fastapi_deliver.Runtime.{Json, text, number, null}
use innoprog_fastapi_deliver.Dict
use innoprog_fastapi_deliver.Errors.{Error, key_error, value_error, runtime_error}
use innoprog_fastapi_deliver.Events.{OrderCreated, created_payload}
use innoprog_fastapi_deliver.Inbox.{
  Tables, Send, atomically, claim, created_order, addressed, consume_order_created_once,
  dispatch_order_created_notification_once,
}
use innoprog_fastapi_deliver.Inbox.Once.{
  Delivery, to_consumer, to_dispatcher, deliver_all, IsTold, IsTold-deliver_all, told,
}
use innoprog_fastapi_deliver.Inbox.Produced.{
  produced, created_event_is_unreadable, dispatcher_reads_created,
}
use innoprog_fastapi_deliver.Tests.Data.{plain, tally}

opened : Unit {0}
unfolding atomically claim created_order addressed consume_order_created_once
    dispatch_order_created_notification_once created_payload Dict.get Dict.put
opened = tt

-- reads back the three ids of the event below
abbrev reader : Json → Result Error ℕ
reader (text t) =
    if t == tally 7
    then ok 7
    else if t == tally 1
    then ok 1
    else if t == tally 5
    then ok 5
    else err (value_error "badly formed hexadecimal UUID string")
reader (number n) = err (value_error "badly formed hexadecimal UUID string")
reader null = err (value_error "badly formed hexadecimal UUID string")

-- a provider that counts its calls, and one that is down
abbrev counting : Send ℕ
counting recipient message idempotency_key calls = (ok idempotency_key, calls + 1)

abbrev failing : Send ℕ
failing recipient message idempotency_key calls = (err (runtime_error "down"), calls + 1)

abbrev fact : OrderCreated
fact = record {
  event_id = 3;
  order_id = 7;
  customer_id = 5;
  tenant_id = 1;
  occurred_at = 100;
  order_version = 1;
}

abbrev no_tables : Tables ℕ
no_tables = record { inbox = []; notifications = []; preferences = []; provider = 0 }

abbrev twice : List (Delivery plain reader counting)
twice =
    to_dispatcher (produced plain fact) 200 "email"
    ∷ to_consumer (produced plain fact) 300
    ∷ to_dispatcher (produced plain fact) 400 "email"
    ∷ []

no_tables-IsTold : IsTold plain reader counting no_tables
unfolding opened
no_tables-IsTold = λ e. refl

abbrev after_all : Tables ℕ
after_all = deliver_all plain reader counting twice no_tables

IsTold-deliver_all_example :
    told 3 after_all.notifications ≡ (if is_none (Dict.get 3 after_all.inbox) then 0 else 1)
IsTold-deliver_all_example =
    IsTold-deliver_all plain reader counting twice no_tables no_tables-IsTold 3

sent_once : (deliver_all plain reader counting twice no_tables).provider ≡ 1
unfolding opened
sent_once = refl

-- The provider was called, its failure left no claim, so that the event can be delivered again.
retried :
    atomically
      (dispatch_order_created_notification_once plain reader failing
        (produced plain fact)
        200
        "email")
      no_tables
    ≡ (err (runtime_error "down"), record no_tables { provider = 1 })
unfolding opened
retried = refl

nothing_claimed : Dict.get 3 no_tables.inbox ≡ none
unfolding opened
nothing_claimed = refl

created_event_is_unreadable_example :
    atomically (consume_order_created_once plain reader (produced plain fact) 200) no_tables
    ≡ (err (key_error "order_id"), no_tables)
created_event_is_unreadable_example =
    created_event_is_unreadable plain reader fact 200 no_tables nothing_claimed

dispatcher_reads_created_example : addressed reader (produced plain fact) ≡ ok (7, 1, 5)
dispatcher_reads_created_example = dispatcher_reads_created plain reader fact refl refl refl refl
