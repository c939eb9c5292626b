-- ===== src/Outbox/Backlog.antt =====
-- How relays work off the backlog.
use Prim.Native.Nat.mul
use innoprog_fastapi_deliver.Prelude.{
  ℕ, zero, suc, ◌+◌, ◌-◌, ◌*◌, ◌≡◌, ◌≤◌, refl, true, none, some, [], ◌∷◌, arith, number_eq, length,
  ok, List,
}
use innoprog_fastapi_deliver.Dict
use innoprog_fastapi_deliver.Dict.{Dict, get-put}
use innoprog_fastapi_deliver.Dict.Entries.{IsDistinct, put-IsDistinct}
use innoprog_fastapi_deliver.Inbox.{OutboxEvent}
use innoprog_fastapi_deliver.Outbox.{
  OutboxRow, Relay, Publish, is_pending, mark_outbox_published, select_pending, publish_rows,
  publish_pending_outbox, relay_once,
}
use innoprog_fastapi_deliver.Outbox.Batch.{IsReady, backlog, select_pending_lem}

backlog-put :
    (i : ℕ) (row : OutboxRow) (now : ℕ) (outbox : Dict ℕ OutboxRow)
    → Dict.get i outbox ≡ some row
    → is_pending row ≡ true
    → suc (backlog (Dict.put i (mark_outbox_published row now) outbox)) ≡ backlog outbox
unfolding Dict.get Dict.put
backlog-put i row now [] found pending = absurd (ground (arith, found))
backlog-put i row now ((j, q) ∷ outbox) found pending =
    ground (arith, found, pending, number_eq.same_iff j i, backlog-put i row now outbox)

put-IsReady :
    (i : ℕ) (row : OutboxRow) (outbox rows : Dict ℕ OutboxRow)
    → Dict.get i rows ≡ none
    → IsReady outbox rows
    → IsReady (Dict.put i row outbox) rows
unfolding Dict.get
put-IsReady i row outbox [] other h = tt
put-IsReady i row outbox ((j, q) ∷ rows) other h = ground (
  arith,
  other,
  h,
  get-put i j row outbox,
  number_eq.same_iff i j,
  number_eq.same_iff j i,
  put-IsReady i row outbox rows,
)

module _ {P : Type 0} (publish : Publish P) where
  -- The broker confirms every publication.
  abbrev pub Confirms : Type 0
  Confirms = (event : OutboxEvent) (broker : P) → (publish event broker).0 ≡ ok tt

  -- the state after the first row of a batch
  abbrev pub told : ℕ → ℕ → OutboxRow → Relay P → Relay P
  told now i row s = record {
    outbox = Dict.put i (mark_outbox_published row now) s.outbox;
    broker =
        (publish (record { id = i; event_type = row.event_type; payload = row.payload })
          s.broker).1;
  }

  publish_rows_step :
      (now i : ℕ) (row : OutboxRow) (rows : Dict ℕ OutboxRow) (s : Relay P) (ids : List ℕ)
      → Confirms
      → (publish_rows publish now rows (told now i row s)).0 ≡ ok ids
      → publish_rows publish now ((i, row) ∷ rows) s
        ≡ (ok (i ∷ ids), (publish_rows publish now rows (told now i row s)).1)
  unfolding publish_rows
  publish_rows_step now i row rows s ids confirms done = ground (
    arith,
    done,
    confirms (record { id = i; event_type = row.event_type; payload = row.payload }) s.broker,
  )

  publish_rows_lem :
      (now : ℕ) (rows : Dict ℕ OutboxRow) (s : Relay P)
      → Confirms
      → IsReady s.outbox rows
      → IsDistinct rows
      → IsDistinct s.outbox
      → (ids : List ℕ) × ((publish_rows publish now rows s).0 ≡ ok ids)
        × (backlog (publish_rows publish now rows s).1.outbox + length rows ≡ backlog s.outbox)
        × IsDistinct (publish_rows publish now rows s).1.outbox
  unfolding publish_rows
  publish_rows_lem now [] s confirms ready fresh distinct = ([], refl, omega arith, distinct)
  publish_rows_lem now ((i, row) ∷ rows) s confirms ready fresh distinct =
      let (ids, done, shorter, fine) =
        publish_rows_lem now rows (told now i row s) confirms
          (put-IsReady i (mark_outbox_published row now) s.outbox rows fresh.0 ready.1) fresh.1
          (put-IsDistinct i (mark_outbox_published row now) s.outbox distinct) in
      let step = publish_rows_step now i row rows s ids confirms done in
      let marked = backlog-put i row now s.outbox ready.0.0 ready.0.1 in
      (i ∷ ids, rw step refl, rw step (omega (arith, shorter, marked)), rw step fine)

  relay_once_step :
      (now batch_size : ℕ) (s : Relay P) (ids : List ℕ)
      → 1 ≤ batch_size
      → batch_size ≤ 200
      → (publish_rows publish now (select_pending [] batch_size s.outbox) s).0 ≡ ok ids
      → relay_once publish [] now batch_size s
        ≡ (ok ids, (publish_rows publish now (select_pending [] batch_size s.outbox) s).1)
  unfolding relay_once publish_pending_outbox
  relay_once_step now batch_size s ids some_row few done = ground (arith, done)

  relay_once_lem :
      (now batch_size : ℕ) (s : Relay P)
      → 1 ≤ batch_size
      → batch_size ≤ 200
      → Confirms
      → IsDistinct s.outbox
      → (ids : List ℕ) × ((relay_once publish [] now batch_size s).0 ≡ ok ids)
        × (backlog (relay_once publish [] now batch_size s).1.outbox
            ≡ backlog s.outbox - batch_size)
        × IsDistinct (relay_once publish [] now batch_size s).1.outbox
  relay_once_lem now batch_size s some_row few confirms distinct =
      let (ready, fresh, size) = select_pending_lem batch_size s.outbox distinct in
      let (ids, done, shorter, fine) =
        publish_rows_lem now (select_pending [] batch_size s.outbox) s confirms ready fresh
          distinct in
      let step = relay_once_step now batch_size s ids some_row few done in
      (ids, rw step refl, rw step (omega (arith, shorter, size)), rw step fine)

  -- relays one after the other, with the time of each
  abbrev pub relays : (ℕ → ℕ) → ℕ → ℕ → Relay P → Relay P
  relays clock batch_size zero s = s
  relays clock batch_size (suc n) s =
      relays clock batch_size n (relay_once publish [] (clock n) batch_size s).1

  -- While the broker confirms each publication and no other relay holds rows, every relay of the rows
  -- that the table keeps by distinct ids shortens the backlog by its batch: after n relays of a batch
  -- of b rows, 1 to 200, the backlog is shorter by n * b, or empty.
  pub backlog_drains :
      (clock : ℕ → ℕ) (batch_size n : ℕ) (s : Relay P)
      → 1 ≤ batch_size
      → batch_size ≤ 200
      → Confirms
      → IsDistinct s.outbox
      → backlog (relays clock batch_size n s).outbox ≡ backlog s.outbox - n * batch_size
  backlog_drains clock batch_size zero s some_row few confirms distinct = omega arith
  backlog_drains clock batch_size (suc n) s some_row few confirms distinct =
      let (ids, done, shorter, fine) =
        relay_once_lem (clock n) batch_size s some_row few confirms distinct in
      omega (
        arith,
        mul.suc n batch_size,
        shorter,
        backlog_drains clock batch_size n (relay_once publish [] (clock n) batch_size s).1 some_row
            few confirms fine,
      )
