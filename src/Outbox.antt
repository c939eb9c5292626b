-- ===== src/Outbox.antt =====
-- src/delivery_service/outbox.py: the relay that publishes pending events of the table `outbox`, in the
-- transaction of its caller. The broker is an argument, as are the rows that other relays hold locked.
pub mod Batch
pub mod Backlog
use innoprog_fastapi_deliver.Prelude.{
  ℕ, String, Bool, true, false, not, ◌&&◌, ◌||◌, Option, none, some, List, [], ◌∷◌, any_of, keep_if,
  take, sort_by, number_eq, ◌==◌, is_none, ltb, leb, if◌then◌else◌, Exec, Result, ok, err, pure,
  gets, modify, raise_if, ◌>>=◌, ◌>>◌,
}
use innoprog_fastapi_deliver.Runtime.{Payload}
use innoprog_fastapi_deliver.Dict
use innoprog_fastapi_deliver.Dict.{Dict}
use innoprog_fastapi_deliver.Errors.{Error, value_error, runtime_error}
use innoprog_fastapi_deliver.Inbox.{OutboxEvent}

-- db.OutboxRow by its primary key
pub record OutboxRow : Type 0 where
  pub event_type : String
  pub payload : Payload
  pub legacy_processed_at : Option ℕ
  pub created_at : ℕ
  pub published_at : Option ℕ

-- the table, and the state of the broker
pub record Relay (P : Type 0) : Type 0 where
  pub outbox : Dict ℕ OutboxRow
  pub broker : P

abbrev pub Publish : Type 0 → Type 0
Publish P = OutboxEvent → Exec P Error (Unit {0})

-- transitional_outbox_pending_clause
abbrev pub is_pending : OutboxRow → Bool
is_pending row = is_none row.published_at && is_none row.legacy_processed_at

abbrev pub mark_outbox_published : OutboxRow → ℕ → OutboxRow
mark_outbox_published row moment = record row {
  published_at = some moment;
  legacy_processed_at = some moment;
}

-- `order_by(OutboxRow.created_at, OutboxRow.id)`
unfoldable pub by_age : ℕ × OutboxRow → ℕ × OutboxRow → Bool
by_age (i, r) (j, q) =
    if ltb r.created_at q.created_at
    then true
    else if r.created_at == q.created_at
    then leb i j
    else false

abbrev pub is_selected : List ℕ → ℕ × OutboxRow → Bool
is_selected locked (i, row) = is_pending row && not (any_of (λ j. j == i) locked)

-- the statement that selects and locks a batch
unfoldable pub select_pending : List ℕ → ℕ → Dict ℕ OutboxRow → Dict ℕ OutboxRow
select_pending locked batch_size outbox =
    take batch_size (sort_by by_age (keep_if (is_selected locked) outbox))

module _ {P : Type 0} (publish : Publish P) where
  abbrev pub on_broker : OutboxEvent → Exec (Relay P) Error (Unit {0})
  on_broker event s = let (r, broker) = publish event s.broker in (r, record s { broker = broker })

  -- the loop over the batch, with the ids that it has published
  unfoldable pub publish_rows : ℕ → Dict ℕ OutboxRow → Exec (Relay P) Error (List ℕ)
  publish_rows published_at [] = pure []
  publish_rows published_at ((i, row) ∷ rows) = do
    on_broker (record { id = i; event_type = row.event_type; payload = row.payload })
    modify (λ s. record s { outbox = Dict.put i (mark_outbox_published row published_at) s.outbox })
    ids ← publish_rows published_at rows
    pure (i ∷ ids)

  unfoldable pub publish_pending_outbox : Bool → List ℕ → ℕ → ℕ → Exec (Relay P) Error (List ℕ)
  publish_pending_outbox in_transaction locked published_at batch_size = do
    raise_if (not in_transaction)
        (runtime_error "publish_pending_outbox requires an active transaction")
    raise_if (not (leb 1 batch_size && leb batch_size 200))
        (value_error "batch_size must be between 1 and 200")
    rows ← gets (λ s. select_pending locked batch_size s.outbox)
    publish_rows published_at rows

  -- The caller's transaction. What the broker has confirmed stays published.
  abbrev pub concluded : Relay P → Result Error (List ℕ) × Relay P → Result Error (List ℕ) × Relay P
  concluded s (ok ids, t) = (ok ids, t)
  concluded s (err e, t) = (err e, record s { broker = t.broker })

  unfoldable pub relay_once : List ℕ → ℕ → ℕ → Exec (Relay P) Error (List ℕ)
  relay_once locked published_at batch_size s =
      concluded s (publish_pending_outbox true locked published_at batch_size s)
