-- ===== src/Tracking/Repeats.antt =====
-- What a repeated position finds: the snapshot of its order, and the order its event id belongs to.
use innoprog_fastapi_deliver.Prelude.{
  ℕ, ◌≡◌, ◌∙◌, refl, true, false, none, some, arith, List, [], ◌∷◌, number_eq, ok, err,
  Option-cases, Bool-cases, inl, inr,
}
use innoprog_fastapi_deliver.Dict
use innoprog_fastapi_deliver.Dict.{get-put, get-put_self, get-nothing}
use innoprog_fastapi_deliver.Errors.{value_error}
use innoprog_fastapi_deliver.Tracking.{
  TrackingSnapshot, Position, Snapshots, snapshot_of, record_position, belongs_elsewhere,
}
use innoprog_fastapi_deliver.Tracking.Sequences.{recorded, record_lem}

module _ (Coordinate : Type 0) where
  -- what an accepted position leaves to be found
  accepted :
      (p : Position Coordinate) (s t : Snapshots Coordinate) (x : TrackingSnapshot Coordinate)
      → record_position Coordinate p s ≡ (ok (x, true), t)
      → (Dict.get p.order_id t.snapshots ≡ some x)
        × (x.client_event_id ≡ p.client_event_id)
        × (Dict.get p.client_event_id t.event_orders ≡ some p.order_id)
  accepted p s t x recorded = elim (Option-cases (Dict.get p.order_id s.snapshots)) [
    | inl first ↦ ground (
      arith,
      recorded,
      record_lem Coordinate p s,
      first,
      get-put_self p.order_id (snapshot_of Coordinate p none) s.snapshots,
      get-put_self p.client_event_id p.order_id s.event_orders,
    )
    | inr (current, found) ↦ ground (
      arith,
      recorded,
      record_lem Coordinate p s,
      found,
      get-put_self p.order_id (snapshot_of Coordinate p (some current)) s.snapshots,
      get-put_self p.client_event_id p.order_id s.event_orders,
    )
  ]

  -- What is remembered of an event id outlives any position.
  owner-kept :
      (event_id order_id : ℕ) (q : Position Coordinate) (s : Snapshots Coordinate)
      → Dict.get event_id s.event_orders ≡ some order_id
      → Dict.get event_id (record_position Coordinate q s).1.event_orders ≡ some order_id
  owner-kept event_id order_id q s owner =
      elim (Bool-cases
        (belongs_elsewhere Coordinate q (Dict.get q.client_event_id s.event_orders))) [
          | inl foreign ↦ ground (arith, owner, foreign, record_lem Coordinate q s)
          | inr own ↦ elim (Option-cases (Dict.get q.order_id s.snapshots)) [
            | inl first ↦ ground (
              arith,
              owner,
              own,
              first,
              record_lem Coordinate q s,
              get-put q.client_event_id event_id q.order_id s.event_orders,
              number_eq.same_iff q.client_event_id event_id,
            )
            | inr (current, found) ↦ ground (
              arith,
              owner,
              own,
              found,
              record_lem Coordinate q s,
              get-put q.client_event_id event_id q.order_id s.event_orders,
              number_eq.same_iff q.client_event_id event_id,
            )
          ]
        ]

  -- A snapshot outlives the positions of other orders.
  snapshot-kept :
      (order_id : ℕ) (q : Position Coordinate) (s : Snapshots Coordinate)
      → ¬ (q.order_id ≡ order_id)
      → Dict.get order_id (record_position Coordinate q s).1.snapshots
        ≡ Dict.get order_id s.snapshots
  snapshot-kept order_id q s other =
      elim (Bool-cases
        (belongs_elsewhere Coordinate q (Dict.get q.client_event_id s.event_orders))) [
          | inl foreign ↦ ground (arith, foreign, record_lem Coordinate q s)
          | inr own ↦ elim (Option-cases (Dict.get q.order_id s.snapshots)) [
            | inl first ↦ ground (
              arith,
              other,
              own,
              first,
              record_lem Coordinate q s,
              get-put q.order_id order_id (snapshot_of Coordinate q none) s.snapshots,
              number_eq.same_iff q.order_id order_id,
            )
            | inr (current, found) ↦ ground (
              arith,
              other,
              own,
              found,
              record_lem Coordinate q s,
              get-put q.order_id order_id (snapshot_of Coordinate q (some current)) s.snapshots,
              number_eq.same_iff q.order_id order_id,
            )
          ]
        ]

  owner-kept_by_all :
      (event_id order_id : ℕ) (qs : List (Position Coordinate)) (s : Snapshots Coordinate)
      → Dict.get event_id s.event_orders ≡ some order_id
      → Dict.get event_id (recorded Coordinate qs s).event_orders ≡ some order_id
  owner-kept_by_all event_id order_id [] s owner = owner
  owner-kept_by_all event_id order_id (q ∷ qs) s owner =
      owner-kept_by_all event_id order_id qs (record_position Coordinate q s).1
        (owner-kept event_id order_id q s owner)

  -- the positions of a list are all of other orders
  abbrev pub AreElsewhere : ℕ → List (Position Coordinate) → Type 0
  AreElsewhere order_id [] = Unit
  AreElsewhere order_id (q ∷ qs) = (¬ (q.order_id ≡ order_id)) × AreElsewhere order_id qs

  snapshot-kept_by_all :
      (order_id : ℕ) (qs : List (Position Coordinate)) (s : Snapshots Coordinate)
      → AreElsewhere order_id qs
      → Dict.get order_id (recorded Coordinate qs s).snapshots ≡ Dict.get order_id s.snapshots
  snapshot-kept_by_all order_id [] s _ = refl
  snapshot-kept_by_all order_id (q ∷ qs) s (other, rest) =
      snapshot-kept_by_all order_id qs (record_position Coordinate q s).1 rest
      ∙ snapshot-kept order_id q s other

  -- After a position was recorded and any positions of other orders came, repeating it answers with the
  -- recorded Coordinate snapshot and writes nothing; and after any positions whatever, the same event id for
  -- another order is refused and writes nothing.
  pub record_once :
      (p : Position Coordinate) (s t : Snapshots Coordinate) (x : TrackingSnapshot Coordinate)
      → record_position Coordinate p s ≡ (ok (x, true), t)
      → ((qs : List (Position Coordinate))
          → AreElsewhere p.order_id qs
          → record_position Coordinate p (recorded Coordinate qs t)
            ≡ (ok (x, false), recorded Coordinate qs t))
        × ((qs : List (Position Coordinate)) (q : Position Coordinate)
            → q.client_event_id ≡ p.client_event_id
            → ¬ (q.order_id ≡ p.order_id)
            → record_position Coordinate q (recorded Coordinate qs t) ≡ (
              err (value_error "client_event_id belongs to another order"),
              recorded Coordinate qs t,
            ))
  record_once p s t x done =
      let (found, same, owner) = accepted p s t x done in
      (
        λ qs elsewhere. ground (
          arith,
          found,
          same,
          record_lem Coordinate p (recorded Coordinate qs t),
          snapshot-kept_by_all p.order_id qs t elsewhere,
          owner-kept_by_all p.client_event_id p.order_id qs t owner,
        ),
        λ qs q e other. ground (
          arith,
          e,
          other,
          record_lem Coordinate q (recorded Coordinate qs t),
          owner-kept_by_all p.client_event_id p.order_id qs t owner,
        ),
      )
