-- ===== src/TrackingApi.antt =====
-- src/delivery_service/main.py: the handler that records a courier's position, over the in-memory
-- snapshots. Publishing is a background task: the handler answers with the event that it hands over.
pub mod Recording
pub mod Couriers
use innoprog_fastapi_deliver.Prelude.{
  ℕ, String, Bool, true, false, not, ◌&&◌, ◌||◌, Option, none, some, number_eq, ◌==◌, ◌!=◌,
  is_value, if◌then◌else◌, Exec, Result, ok, err, pure, raise, raise_if, ◌>>=◌, ◌>>◌,
}
use innoprog_fastapi_deliver.Runtime.{Runtime}
use innoprog_fastapi_deliver.Errors.{Error, http_exception, value_error}
use innoprog_fastapi_deliver.Access.{Actor, courier, role_eq}
use innoprog_fastapi_deliver.Status.{OrderStatus, assigned, picked_up, status_eq, status_value}
use innoprog_fastapi_deliver.Domain.{DeliveryOrder}
use innoprog_fastapi_deliver.Ports.{OrderRepository}
use innoprog_fastapi_deliver.Service
use innoprog_fastapi_deliver.Tracking.{
  TrackingEvent, TrackingSnapshot, Snapshots, Position, event, record_position,
}

module _ (Coordinate : Type 0) where
  -- schemas.TrackingUpdate
  pub record TrackingUpdate : Type 0 where
    pub latitude : Coordinate
    pub longitude : Coordinate
    pub client_event_id : ℕ

  pub record TrackingState (S : Type 0) : Type 0 where
    pub orders : S
    pub snapshots : Snapshots Coordinate

  module _ {S : Type 0} (py : Runtime) (repo : OrderRepository S) where
    abbrev pub on_orders : {A : Type 0} → Exec S Error A → Exec (TrackingState S) Error A
    on_orders m s = let (r, orders) = m s.orders in (r, record s { orders = orders })

    -- `except ValueError`
    abbrev pub conflict_as_409 : {A : Type 0} → Result Error A → Result Error A
    conflict_as_409 (ok a) = ok a
    conflict_as_409 (err (value_error _)) = err (http_exception 409 "tracking event conflict")
    conflict_as_409 (err e) = err e

    abbrev pub on_snapshots :
        {A : Type 0} → Exec (Snapshots Coordinate) Error A → Exec (TrackingState S) Error A
    on_snapshots m s =
        let (r, snapshots) = m s.snapshots in
        (conflict_as_409 r, record s { snapshots = snapshots })

    abbrev pub is_outsider : Actor → DeliveryOrder → Bool
    is_outsider actor order =
        actor.role != courier
        || (actor.tenant_id != order.tenant_id || not (is_value order.courier_id actor.user_id))

    abbrev pub is_under_way : OrderStatus → Bool
    is_under_way status = status == assigned || status == picked_up

    -- the snapshot, and the event that is published in the background
    unfoldable pub record_tracking_position :
        Actor
        → ℕ
        → TrackingUpdate
        → ℕ
        → Exec
            (TrackingState S)
            Error
            (TrackingSnapshot Coordinate × Option (TrackingEvent Coordinate))
    record_tracking_position actor order_id update now = do
      order ← on_orders (Service.get py repo order_id)
      raise_if (is_outsider actor order) (http_exception 403 "tracking access denied")
      raise_if (not (is_under_way order.status))
          (http_exception 409 "tracking is not active for this order")
      (snapshot, changed) ← on_snapshots (
          record_position Coordinate (record {
            order_id = order.id;
            tenant_id = order.tenant_id;
            status = status_value order.status;
            latitude = update.latitude;
            longitude = update.longitude;
            client_event_id = update.client_event_id;
            recorded_at = now;
          }))
      pure (snapshot, if changed then some (event Coordinate snapshot) else none)
