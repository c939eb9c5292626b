-- ===== src/Tests/Live.antt =====
-- Live tracking at concrete inputs; a coordinate is a number here.
use innoprog_fastapi_deliver.Prelude.{
  ℕ, ◌+◌, ◌≡◌, refl, true, false, none, List, [], ◌∷◌, ok, err, arith, max, number_eq,
}
use innoprog_fastapi_deliver.Dict
use innoprog_fastapi_deliver.Errors.{value_error}
use innoprog_fastapi_deliver.Tracking.{
  TrackingEvent, TrackingSnapshot, Position, Snapshots, Hub, event, no_snapshots, next_sequence,
  record_position, subscribe, publish, deliver, offer, is_full, above, order_event_stream,
}
use innoprog_fastapi_deliver.Tracking.Sequences.{IsNumbered, sent, recorded, sequences_have_no_gaps}
use innoprog_fastapi_deliver.Tracking.Repeats.{AreElsewhere, record_once}
use innoprog_fastapi_deliver.Tracking.Delivery.{
  Waits, publish_all, latest, about, slow_consumer_keeps_latest, Increasing, newest, last_sent,
  stream_advances,
}

opened : Unit {0}
unfolding record_position event subscribe publish deliver offer is_full above order_event_stream
    Dict.get Dict.put
opened = tt

abbrev position : ℕ → ℕ → Position ℕ
position order_id event_id = record {
  order_id = order_id;
  tenant_id = 1;
  status = "picked_up";
  latitude = 59;
  longitude = 30;
  client_event_id = event_id;
  recorded_at = 100;
}

abbrev some_positions : List (Position ℕ)
some_positions = position 7 1 ∷ position 8 2 ∷ position 7 1 ∷ position 7 3 ∷ position 8 3 ∷ []

sequences_have_no_gaps_example :
    let s = recorded ℕ some_positions (no_snapshots ℕ) in
    IsNumbered ℕ 7 0 s.outbox × (next_sequence ℕ (Dict.get 7 s.snapshots) ≡ sent ℕ 7 s.outbox + 1)
sequences_have_no_gaps_example = sequences_have_no_gaps ℕ some_positions 7

-- The repeat of event 1 and the reuse of event 3 wrote nothing.
three_messages : sent ℕ 7 (recorded ℕ some_positions (no_snapshots ℕ)).outbox ≡ 2
unfolding opened
three_messages = refl

abbrev first_snapshot : TrackingSnapshot ℕ
first_snapshot = record {
  order_id = 7;
  tenant_id = 1;
  status = "picked_up";
  sequence = 1;
  latitude = 59;
  longitude = 30;
  recorded_at = 100;
  client_event_id = 1;
}

abbrev first_state : Snapshots ℕ
first_state = recorded ℕ (position 7 1 ∷ []) (no_snapshots ℕ)

first_recorded :
    record_position ℕ (position 7 1) (no_snapshots ℕ) ≡ (ok (first_snapshot, true), first_state)
unfolding opened
first_recorded = refl

record_once_example :
    ((qs : List (Position ℕ))
      → AreElsewhere ℕ 7 qs
      → record_position ℕ (position 7 1) (recorded ℕ qs first_state)
        ≡ (ok (first_snapshot, false), recorded ℕ qs first_state))
    × ((qs : List (Position ℕ)) (q : Position ℕ)
        → q.client_event_id ≡ 1
        → ¬ (q.order_id ≡ 7)
        → record_position ℕ q (recorded ℕ qs first_state) ≡ (
          err (value_error "client_event_id belongs to another order"),
          recorded ℕ qs first_state,
        ))
record_once_example =
    record_once ℕ (position 7 1) (no_snapshots ℕ) first_state first_snapshot first_recorded

abbrev update : ℕ → ℕ → TrackingEvent ℕ
update order_id sequence = record {
  order_id = order_id;
  status = "picked_up";
  sequence = sequence;
  latitude = none;
  longitude = none;
  recorded_at = none;
}

abbrev no_subscribers : Hub ℕ
no_subscribers = record { queue_size = 2; subscribers = []; dropped_updates = 0 }

abbrev some_updates : List (TrackingEvent ℕ)
some_updates = update 7 1 ∷ update 7 2 ∷ update 8 1 ∷ update 7 3 ∷ []

slow_consumer_keeps_latest_example :
    Waits ℕ
      (publish_all ℕ some_updates (subscribe ℕ 5 7 no_subscribers))
      7
      5
      (latest ℕ 2 (about ℕ 7 some_updates))
slow_consumer_keeps_latest_example =
    slow_consumer_keeps_latest ℕ 7 5 some_updates no_subscribers (omega arith)

one_dropped : (publish_all ℕ some_updates (subscribe ℕ 5 7 no_subscribers)).dropped_updates ≡ 1
unfolding opened
one_dropped = refl

stream_advances_example :
    (order_event_stream ℕ (update 7 2) 1 false some_updates ≡ update 7 2 ∷ [])
    × ((rest : List (TrackingEvent ℕ)) × (order_event_stream ℕ (update 7 2) 1 true some_updates
          ≡ update 7 2 ∷ rest)
        × Increasing ℕ (max 1 2) rest
        × (last_sent ℕ (max 1 2) rest ≡ newest ℕ (max 1 2) some_updates))
stream_advances_example = stream_advances ℕ (update 7 2) 1 some_updates
