-- ===== src/TrackingApi/Recording.antt =====
-- What `record` of the snapshots answers to the position that the handler makes of an update.
use innoprog_fastapi_deliver.Prelude.{
  ℕ, ◌≡◌, ◌⊎◌, refl, Bool, true, false, Option, none, some, number_eq, ◌==◌, if◌then◌else◌, arith,
  ok, err, Option-cases, Bool-cases, inl, inr,
}
use innoprog_fastapi_deliver.Dict
use innoprog_fastapi_deliver.Dict.{get-put_self}
use innoprog_fastapi_deliver.Errors.{value_error}
use innoprog_fastapi_deliver.Access.{role_eq}
use innoprog_fastapi_deliver.Status.{status_eq, status_value}
use innoprog_fastapi_deliver.Domain.{DeliveryOrder}
use innoprog_fastapi_deliver.Tracking.{
  TrackingSnapshot, Snapshots, Position, event, record_position, snapshot_of, stored,
  belongs_elsewhere,
}
use innoprog_fastapi_deliver.TrackingApi.{TrackingUpdate}

module _ (Coordinate : Type 0) where
  abbrev pub position_of : DeliveryOrder → TrackingUpdate Coordinate → ℕ → Position Coordinate
  position_of order update now = record {
    order_id = order.id;
    tenant_id = order.tenant_id;
    status = status_value order.status;
    latitude = update.latitude;
    longitude = update.longitude;
    client_event_id = update.client_event_id;
    recorded_at = now;
  }

  abbrev pub Follows : Position Coordinate → TrackingSnapshot Coordinate → Type 0
  Follows p x =
      (x.order_id ≡ p.order_id)
      × (x.tenant_id ≡ p.tenant_id)
      × (x.status ≡ p.status)
      × (x.latitude ≡ p.latitude)
      × (x.longitude ≡ p.longitude)
      × (x.recorded_at ≡ p.recorded_at)

  pub published :
      (p : Position Coordinate) (x : TrackingSnapshot Coordinate) (changed : Bool)
      (s t : Snapshots Coordinate)
      → ((changed ≡ true) × Follows p x) ⊎ ((changed ≡ false) × (t ≡ s))
      → (((if changed then some (event Coordinate x) else none) ≡ none) × (t ≡ s))
        ⊎ (((if changed then some (event Coordinate x) else none) ≡ some (event Coordinate x))
            × Follows p x)
  published p x changed s t (inl (new, follows)) = inr (ground (arith, new), follows)
  published p x changed s t (inr (again, same)) = inl (ground (arith, again), same)

  abbrev pub Recorded : Position Coordinate → Snapshots Coordinate → Type 0
  Recorded p s =
      (x : TrackingSnapshot Coordinate) × (changed : Bool) × (t : Snapshots Coordinate)
      × (record_position Coordinate p s ≡ (ok (x, changed), t))
      × (Dict.get p.order_id t.snapshots ≡ some x)
      × (x.client_event_id ≡ p.client_event_id)
      × (((changed ≡ true) × Follows p x) ⊎ ((changed ≡ false) × (t ≡ s)))

  new-Recorded :
      (p : Position Coordinate) (s : Snapshots Coordinate)
      (current : Option (TrackingSnapshot Coordinate))
      → record_position Coordinate p s ≡ (
        ok (snapshot_of Coordinate p current, true),
        stored Coordinate p (snapshot_of Coordinate p current) s,
      )
      → Recorded p s
  new-Recorded p s current e = (
    snapshot_of Coordinate p current,
    true,
    stored Coordinate p (snapshot_of Coordinate p current) s,
    e,
    get-put_self p.order_id (snapshot_of Coordinate p current) s.snapshots,
    refl,
    inl (refl, (refl, refl, refl, refl, refl, refl)),
  )

  pub record_facts :
      (p : Position Coordinate) (s : Snapshots Coordinate)
      → ((record_position Coordinate p s
            ≡ (err (value_error "client_event_id belongs to another order"), s))
          × (belongs_elsewhere Coordinate p (Dict.get p.client_event_id s.event_orders) ≡ true))
        ⊎ Recorded p s
  unfolding record_position
  record_facts p s =
      elim (Bool-cases
        (belongs_elsewhere Coordinate p (Dict.get p.client_event_id s.event_orders))) [
          | inl elsewhere ↦ inl (ground (arith, elsewhere), elsewhere)
          | inr here ↦ elim (Option-cases (Dict.get p.order_id s.snapshots)) [
            | inl first ↦ inr (new-Recorded p s none (ground (arith, here, first)))
            | inr (current, found) ↦
                elim (Bool-cases (current.client_event_id == p.client_event_id)) [
                  | inl again ↦ inr (
                    current,
                    false,
                    s,
                    ground (arith, here, found, again),
                    found,
                    ground (arith, again),
                    inr (refl, refl),
                  )
                  | inr new ↦
                      inr (new-Recorded p s (some current) (ground (arith, here, found, new)))
                ]
          ]
        ]
