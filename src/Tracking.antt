-- ===== src/Tracking.antt =====
-- src/delivery_service/tracking.py: `InMemoryTrackingSnapshotRepository`, the queues of `TrackingHub`
-- and the floor of `order_event_stream`. A coordinate is an abstract type. A queue is named by a
-- number, as the set of subscribers knows it by its identity.
pub mod Sequences
pub mod Repeats
pub mod Delivery
use innoprog_fastapi_deliver.Prelude.{
  ℕ, ◌+◌, String, Bool, true, false, not, Option, none, some, List, [], ◌∷◌, ◌++◌, number_eq, ◌==◌,
  ◌!=◌, is_value, leb, if◌then◌else◌, Exec, pure, gets, modify, raise_if, ◌>>=◌, ◌>>◌, length, max,
  ◌&&◌, drop,
}
use innoprog_fastapi_deliver.Dict
use innoprog_fastapi_deliver.Dict.{Dict}
use innoprog_fastapi_deliver.Errors.{Error, value_error}

module _ (Coordinate : Type 0) where
  pub record TrackingEvent : Type 0 where
    pub order_id : ℕ
    pub status : String
    pub sequence : ℕ
    pub latitude : Option Coordinate
    pub longitude : Option Coordinate
    pub recorded_at : Option ℕ

  pub record TrackingSnapshot : Type 0 where
    pub order_id : ℕ
    pub tenant_id : ℕ
    pub status : String
    pub sequence : ℕ
    pub latitude : Coordinate
    pub longitude : Coordinate
    pub recorded_at : ℕ
    pub client_event_id : ℕ

  unfoldable pub event : TrackingSnapshot → TrackingEvent
  event s = record {
    order_id = s.order_id;
    status = s.status;
    sequence = s.sequence;
    latitude = some s.latitude;
    longitude = some s.longitude;
    recorded_at = some s.recorded_at;
  }

  -- the arguments of `record`
  pub record Position : Type 0 where
    pub order_id : ℕ
    pub tenant_id : ℕ
    pub status : String
    pub latitude : Coordinate
    pub longitude : Coordinate
    pub client_event_id : ℕ
    pub recorded_at : ℕ

  -- An outbox message: its event id, and the event whose payload it carries.
  abbrev pub Message : Type 0
  Message = ℕ × TrackingEvent

  pub record Snapshots : Type 0 where
    pub snapshots : Dict ℕ TrackingSnapshot
    pub event_orders : Dict ℕ ℕ
    pub outbox : List Message

  abbrev pub no_snapshots : Snapshots
  no_snapshots = record { snapshots = []; event_orders = []; outbox = [] }

  unfoldable pub get : ℕ → Snapshots → Option TrackingSnapshot
  get order_id s = Dict.get order_id s.snapshots

  abbrev pub next_sequence : Option TrackingSnapshot → ℕ
  next_sequence none = 1
  next_sequence (some current) = current.sequence + 1

  abbrev pub snapshot_of : Position → Option TrackingSnapshot → TrackingSnapshot
  snapshot_of p current = record {
    order_id = p.order_id;
    tenant_id = p.tenant_id;
    status = p.status;
    sequence = next_sequence current;
    latitude = p.latitude;
    longitude = p.longitude;
    recorded_at = p.recorded_at;
    client_event_id = p.client_event_id;
  }

  abbrev pub is_repeat : Position → Option TrackingSnapshot → Bool
  is_repeat p none = false
  is_repeat p (some current) = current.client_event_id == p.client_event_id

  abbrev pub belongs_elsewhere : Position → Option ℕ → Bool
  belongs_elsewhere p none = false
  belongs_elsewhere p (some previous_order) = previous_order != p.order_id

  -- the three writes of an accepted position
  abbrev pub stored : Position → TrackingSnapshot → Snapshots → Snapshots
  stored p snapshot s = record {
    snapshots = Dict.put p.order_id snapshot s.snapshots;
    event_orders = Dict.put p.client_event_id p.order_id s.event_orders;
    outbox = s.outbox ++ (p.client_event_id, event snapshot) ∷ [];
  }

  -- `record` once the current snapshot was looked up
  abbrev pub record_after :
      Position → Option TrackingSnapshot → Exec Snapshots Error (TrackingSnapshot × Bool)
  record_after p none = do modify (stored p (snapshot_of p none)); pure (snapshot_of p none, true)
  record_after p (some current) =
      if current.client_event_id == p.client_event_id then pure (current, false) else do
        modify (stored p (snapshot_of p (some current)))
        pure (snapshot_of p (some current), true)

  unfoldable pub record_position : Position → Exec Snapshots Error (TrackingSnapshot × Bool)
  record_position p = do
    previous_order ← gets (λ s. Dict.get p.client_event_id s.event_orders)
    raise_if (belongs_elsewhere p previous_order)
        (value_error "client_event_id belongs to another order")
    current ← gets (λ s. Dict.get p.order_id s.snapshots)
    record_after p current

  -- A subscriber's queue holds what it has not taken yet, the oldest first.
  pub record Hub : Type 0 where
    pub queue_size : ℕ
    pub subscribers : Dict ℕ (Dict ℕ (List TrackingEvent))
    pub dropped_updates : ℕ

  abbrev pub queues_of : Hub → ℕ → Dict ℕ (List TrackingEvent)
  queues_of h order_id = elim (Dict.get order_id h.subscribers) [ none ↦ [] | some qs ↦ qs ]

  unfoldable pub subscribe : ℕ → ℕ → Hub → Hub
  subscribe queue order_id h = record h {
    subscribers = Dict.put order_id (Dict.put queue [] (queues_of h order_id)) h.subscribers;
  }

  -- `subscribers.discard(queue)`, and an empty set is taken out
  abbrev pub without : ℕ → Dict ℕ (List TrackingEvent) → Hub → Hub
  without order_id [] h = record h { subscribers = Dict.remove order_id h.subscribers }
  without order_id (q ∷ qs) h = record h { subscribers = Dict.put order_id (q ∷ qs) h.subscribers }

  abbrev pub discard : ℕ → ℕ → Option (Dict ℕ (List TrackingEvent)) → Hub → Hub
  discard order_id queue none h = h
  discard order_id queue (some qs) h = without order_id (Dict.remove queue qs) h

  unfoldable pub unsubscribe : ℕ → ℕ → Hub → Hub
  unsubscribe order_id queue h = discard order_id queue (Dict.get order_id h.subscribers) h

  unfoldable pub subscriber_count : ℕ → Hub → ℕ
  subscriber_count order_id h = length (queues_of h order_id)

  -- `if queue.full(): queue.get_nowait()`, then `queue.put_nowait(event)`; a size of 0 has no bound
  unfoldable pub is_full : ℕ → List TrackingEvent → Bool
  is_full size queue = not (size == 0) && leb size (length queue)

  unfoldable pub offer : ℕ → TrackingEvent → List TrackingEvent → List TrackingEvent
  unfolding is_full
  offer size e queue = (if is_full size queue then drop 1 queue else queue) ++ e ∷ []

  -- the loop over the queues, with the number of updates it dropped
  unfoldable pub deliver :
      ℕ → TrackingEvent → Dict ℕ (List TrackingEvent) → ℕ × Dict ℕ (List TrackingEvent)
  deliver size e [] = (0, [])
  deliver size e ((k, queue) ∷ qs) =
      let (dropped, rest) = deliver size e qs in
      ((if is_full size queue then 1 else 0) + dropped, (k, offer size e queue) ∷ rest)

  abbrev pub delivered : TrackingEvent → Option (Dict ℕ (List TrackingEvent)) → Hub → Hub
  delivered e none h = h
  delivered e (some qs) h =
      let (dropped, rest) = deliver h.queue_size e qs in
      record h {
        subscribers = Dict.put e.order_id rest h.subscribers;
        dropped_updates = h.dropped_updates + dropped;
      }

  unfoldable pub publish : TrackingEvent → Hub → Hub
  publish e h = delivered e (Dict.get e.order_id h.subscribers) h

  -- The events that `order_event_stream` sends after the snapshot, of those its queue hands it.
  unfoldable pub above : ℕ → List TrackingEvent → List TrackingEvent
  above floor [] = []
  above floor (update ∷ updates) =
      let rest = above floor updates in
      let next = above update.sequence updates in
      if leb update.sequence floor then rest else update ∷ next

  unfoldable pub order_event_stream :
      TrackingEvent → ℕ → Bool → List TrackingEvent → List TrackingEvent
  order_event_stream snapshot last_sequence follow updates =
      snapshot ∷ (if follow then above (max last_sequence snapshot.sequence) updates else [])
