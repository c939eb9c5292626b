-- ===== src/TrackingApi/Couriers.antt =====
-- Who moves an order on the map.
use innoprog_fastapi_deliver.Prelude.{
  ℕ, ◌≡◌, ◌⊎◌, Bool, true, false, Option, none, some, number_eq, if◌then◌else◌, arith, ok, err,
  Option-cases, Bool-cases, inl, inr,
}
use innoprog_fastapi_deliver.Runtime.{Runtime}
use innoprog_fastapi_deliver.Dict
use innoprog_fastapi_deliver.Dict.{get-put_self}
use innoprog_fastapi_deliver.Errors.{Error, http_exception}
use innoprog_fastapi_deliver.Access.{Actor, courier, role_eq}
use innoprog_fastapi_deliver.Status.{OrderStatus, assigned, picked_up, status_eq, status_value}
use innoprog_fastapi_deliver.Domain.{DeliveryOrder}
use innoprog_fastapi_deliver.Repository
use innoprog_fastapi_deliver.Repository.{Memory, memory_repository}
use innoprog_fastapi_deliver.Service
use innoprog_fastapi_deliver.Tracking.{
  TrackingEvent, TrackingSnapshot, Snapshots, event, record_position, belongs_elsewhere,
}
use innoprog_fastapi_deliver.TrackingApi.{
  TrackingUpdate, TrackingState, record_tracking_position, is_outsider, is_under_way,
}
use innoprog_fastapi_deliver.TrackingApi.Recording.{position_of, Follows, published, record_facts}

module _ (Coordinate : Type 0) (py : Runtime) where
  -- the snapshot of a new position
  pub record IsOf (current : DeliveryOrder) (update : TrackingUpdate Coordinate) (now : ℕ)
      (snapshot : TrackingSnapshot Coordinate) : Type 0 where
    pub order_id : snapshot.order_id ≡ current.id
    pub tenant_id : snapshot.tenant_id ≡ current.tenant_id
    pub status : snapshot.status ≡ status_value current.status
    pub latitude : snapshot.latitude ≡ update.latitude
    pub longitude : snapshot.longitude ≡ update.longitude
    pub recorded_at : snapshot.recorded_at ≡ now

  -- a position that was accepted
  pub record IsTold (actor : Actor) (current : DeliveryOrder) (update : TrackingUpdate Coordinate)
      (s t : TrackingState Coordinate Memory) (snapshot : TrackingSnapshot Coordinate)
      (told : Option (TrackingEvent Coordinate)) (now : ℕ) : Type 0 where
    pub by_courier : actor.role ≡ courier
    pub in_tenant : actor.tenant_id ≡ current.tenant_id
    pub carries : current.courier_id ≡ some actor.user_id
    pub under_way : (current.status ≡ assigned) ⊎ (current.status ≡ picked_up)
    pub orders_kept : t.orders ≡ s.orders
    pub latest : Dict.get current.id t.snapshots.snapshots ≡ some snapshot
    pub of_update : snapshot.client_event_id ≡ update.client_event_id
    pub published_once :
        ((told ≡ none) × (t ≡ s))
        ⊎ ((told ≡ some (event Coordinate snapshot)) × IsOf current update now snapshot)

  -- a position that must be accepted
  pub record MayTell (actor : Actor) (current : DeliveryOrder) (update : TrackingUpdate Coordinate)
      (s : TrackingState Coordinate Memory) : Type 0 where
    pub by_courier : actor.role ≡ courier
    pub in_tenant : actor.tenant_id ≡ current.tenant_id
    pub carries : current.courier_id ≡ some actor.user_id
    pub under_way : (current.status ≡ assigned) ⊎ (current.status ≡ picked_up)
    pub own_event :
        (order_id : ℕ)
        → Dict.get update.client_event_id s.snapshots.event_orders ≡ some order_id
        → order_id ≡ current.id

  outsider_may_not :
      (actor : Actor) (current : DeliveryOrder) (update : TrackingUpdate Coordinate)
      (s : TrackingState Coordinate Memory)
      → is_outsider Coordinate py (memory_repository py) actor current ≡ true
      → ¬ MayTell actor current update s
  outsider_may_not actor current update s outsider may =
      ground (arith, outsider, may.by_courier, may.in_tenant, may.carries)

  idle_may_not :
      (actor : Actor) (current : DeliveryOrder) (update : TrackingUpdate Coordinate)
      (s : TrackingState Coordinate Memory)
      → is_under_way Coordinate py (memory_repository py) current.status ≡ false
      → ¬ MayTell actor current update s
  idle_may_not actor current update s idle may = ground (arith, idle, may.under_way)

  elsewhere_may_not :
      (actor : Actor) (current : DeliveryOrder) (update : TrackingUpdate Coordinate) (now : ℕ)
      (s : TrackingState Coordinate Memory)
      → belongs_elsewhere Coordinate
          (position_of Coordinate current update now)
          (Dict.get update.client_event_id s.snapshots.event_orders)
        ≡ true
      → ¬ MayTell actor current update s
  elsewhere_may_not actor current update now s elsewhere may =
      elim (Option-cases (Dict.get update.client_event_id s.snapshots.event_orders)) [
        | inl new ↦ ground (arith, elsewhere, new)
        | inr (order_id, known) ↦ ground (arith, elsewhere, known, may.own_event order_id known)
      ]

  allowed_lem :
      (actor : Actor) (current : DeliveryOrder)
      → is_outsider Coordinate py (memory_repository py) actor current ≡ false
      → (actor.role ≡ courier)
        × (actor.tenant_id ≡ current.tenant_id)
        × (current.courier_id ≡ some actor.user_id)
  allowed_lem actor current h = (ground (arith, h), ground (arith, h), ground (arith, h))

  under_way_lem :
      (status : OrderStatus)
      → is_under_way Coordinate py (memory_repository py) status ≡ true
      → (status ≡ assigned) ⊎ (status ≡ picked_up)
  under_way_lem status h = ground (arith, h)

  Follows-IsOf :
      (current : DeliveryOrder) (update : TrackingUpdate Coordinate) (now : ℕ)
      (x : TrackingSnapshot Coordinate)
      → Follows Coordinate (position_of Coordinate current update now) x
      → IsOf current update now x
  Follows-IsOf current update now x
        (order_id, tenant_id, status, latitude, longitude, recorded_at) =
      record {
        order_id = order_id;
        tenant_id = tenant_id;
        status = status;
        latitude = latitude;
        longitude = longitude;
        recorded_at = recorded_at;
      }

  passed :
      (actor : Actor) (order_id : ℕ) (update : TrackingUpdate Coordinate) (now : ℕ)
      (s : TrackingState Coordinate Memory) (current : DeliveryOrder)
      (x : TrackingSnapshot Coordinate) (changed : Bool) (t : Snapshots Coordinate)
      → Dict.get order_id s.orders.orders ≡ some current
      → is_outsider Coordinate py (memory_repository py) actor current ≡ false
      → is_under_way Coordinate py (memory_repository py) current.status ≡ true
      → record_position Coordinate (position_of Coordinate current update now) s.snapshots
        ≡ (ok (x, changed), t)
      → (record_tracking_position Coordinate py
          (memory_repository py)
          actor
          order_id
          update
          now
          s).1
        ≡ record s { snapshots = t }
  unfolding record_tracking_position Service.get Repository.get
  passed actor order_id update now s current x changed t found insider active done =
      ground (arith, found, insider, active, done)

  -- A position for a stored order has one of two outcomes. It is refused and changes nothing, and then it
  -- does not come from the courier who carries the order, in its tenant and under way, or its event id
  -- belongs to another order; or it comes from the courier who
  -- carries the order, in its tenant and under way, the orders stay, the answer is the order's latest
  -- snapshot, with the event id of the update, and either nothing changes and nothing is published, or
  -- the snapshot has the order, tenant and status of the stored order, the latitude and longitude of the
  -- update and the time of the call, and is handed over for publication.
  pub position_outcome :
      (actor : Actor) (order_id : ℕ) (update : TrackingUpdate Coordinate) (now : ℕ)
      (s : TrackingState Coordinate Memory) (current : DeliveryOrder)
      → Dict.get order_id s.orders.orders ≡ some current
      → let o =
          record_tracking_position Coordinate py
            (memory_repository py)
            actor
            order_id
            update
            now
            s in
        ((e : Error) × (o ≡ (err e, s)) × (¬ MayTell actor current update s))
        ⊎ ((snapshot : TrackingSnapshot Coordinate) × (told : Option (TrackingEvent Coordinate))
            × (o.0 ≡ ok (snapshot, told))
            × IsTold actor current update s o.1 snapshot told now)
  unfolding record_tracking_position Service.get Repository.get
  position_outcome actor order_id update now s current found =
      elim (Bool-cases (is_outsider Coordinate py (memory_repository py) actor current)) [
        | inl outsider ↦ inl (
          http_exception 403 "tracking access denied",
          ground (arith, found, outsider),
          outsider_may_not actor current update s outsider,
        )
        | inr insider ↦
            elim (Bool-cases (is_under_way Coordinate py (memory_repository py) current.status)) [
              | inr idle ↦ inl (
                http_exception 409 "tracking is not active for this order",
                ground (arith, found, insider, idle),
                idle_may_not actor current update s idle,
              )
              | inl active ↦
                  elim (record_facts Coordinate (position_of Coordinate current update now)
                    s.snapshots) [
                      | inl (refused, elsewhere) ↦ inl (
                        http_exception 409 "tracking event conflict",
                        ground (arith, found, insider, active, refused),
                        elsewhere_may_not actor current update now s elsewhere,
                      )
                      | inr (x, changed, t, done, latest, of_update, once) ↦ inr (
                        x,
                        if changed then some (event Coordinate x) else none,
                        ground (arith, found, insider, active, done),
                        let (by_courier, in_tenant, carries) = allowed_lem actor current insider in
                            let after =
                              passed actor order_id update now s current x changed t found insider
                                active done in
                            record {
                              by_courier = by_courier;
                              in_tenant = in_tenant;
                              carries = carries;
                              under_way = under_way_lem current.status active;
                              orders_kept = ground (arith, after);
                              latest = ground (arith, after, latest);
                              of_update = of_update;
                              published_once =
                                  elim (published Coordinate
                                    (position_of Coordinate current update now) x changed
                                    s.snapshots t once) [
                                      | inl (silent, same) ↦
                                          inl (silent, ground (arith, after, same))
                                      | inr (spoken, follows) ↦
                                          inr (spoken, Follows-IsOf current update now x follows)
                                    ];
                            },
                      )
                    ]
            ]
      ]
