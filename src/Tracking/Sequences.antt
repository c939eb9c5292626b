-- ===== src/Tracking/Sequences.antt =====
-- The snapshots of the courier's positions against the messages that were sent about them.
use innoprog_fastapi_deliver.Prelude.{
  ℕ, ◌+◌, suc, ◌≡◌, refl, Option, none, some, arith, if◌then◌else◌, List, [], ◌∷◌, ◌++◌, number_eq,
  ◌==◌, ◌⊎◌, err, Bool-cases, inl, inr,
}
use innoprog_fastapi_deliver.Dict
use innoprog_fastapi_deliver.Dict.{get-put, get-put_self, get-nothing}
use innoprog_fastapi_deliver.Errors.{value_error}
use innoprog_fastapi_deliver.Tracking.{
  TrackingSnapshot, Position, Snapshots, Message, event, no_snapshots, next_sequence, snapshot_of,
  stored, record_after, record_position, belongs_elsewhere,
}

module _ (Coordinate : Type 0) where
  abbrev pub Log : Type 0
  Log = List (Message Coordinate)

  -- the number of messages about an order
  abbrev pub sent : ℕ → Log → ℕ
  sent o [] = 0
  sent o (m ∷ box) = let rest = sent o box in if m.1.order_id == o then suc rest else rest

  -- After `n` messages about the order, those of the log carry the sequences that follow, without a
  -- gap and in order.
  abbrev pub IsNumbered : ℕ → ℕ → Log → Type 0
  IsNumbered o n [] = Unit
  IsNumbered o n (m ∷ box) =
      ((m.1.order_id ≡ o) × (m.1.sequence ≡ n + 1) × IsNumbered o (n + 1) box)
      ⊎ ((¬ (m.1.order_id ≡ o)) × IsNumbered o n box)

  sent-append :
      (o : ℕ) (box : Log) (m : Message Coordinate)
      → sent o (box ++ m ∷ []) ≡ sent o box + (if m.1.order_id == o then 1 else 0)
  sent-append o [] m = ground arith
  sent-append o (x ∷ box) m = ground (arith, sent-append o box m)

  IsNumbered-append :
      (o n : ℕ) (box : Log) (m : Message Coordinate)
      → IsNumbered o n box
      → (m.1.order_id ≡ o → m.1.sequence ≡ n + sent o box + 1)
      → IsNumbered o n (box ++ m ∷ [])
  IsNumbered-append o n [] m h numbered = ground arith
  IsNumbered-append o n (x ∷ box) m h numbered =
      ground (arith, IsNumbered-append o (n + 1) box m, IsNumbered-append o n box m)

  pub record IsLogged (s : Snapshots Coordinate) : Type 0 where
    pub numbered : (o : ℕ) → IsNumbered o 0 s.outbox
    pub counted : (o : ℕ) → next_sequence Coordinate (Dict.get o s.snapshots) ≡ sent o s.outbox + 1

  stored-IsLogged :
      (p : Position Coordinate) (s : Snapshots Coordinate)
      (current : Option (TrackingSnapshot Coordinate))
      → Dict.get p.order_id s.snapshots ≡ current
      → IsLogged s
      → IsLogged (stored Coordinate p (snapshot_of Coordinate p current) s)
  unfolding event
  stored-IsLogged p s current found h =
      let snapshot = snapshot_of Coordinate p current in
      let m : Message Coordinate = (p.client_event_id, event Coordinate snapshot) in
      record {
        numbered = λ o.
            IsNumbered-append o 0 s.outbox m (h.numbered o)
              (λ e. ground (arith, found, h.counted o, e));
        counted = λ o. ground (
          arith,
          found,
          h.counted o,
          sent-append o s.outbox m,
          get-put p.order_id o snapshot s.snapshots,
          number_eq.same_iff p.order_id o,
        );
      }

  -- Every outcome of `record`.
  pub record_lem :
      (p : Position Coordinate) (s : Snapshots Coordinate)
      → let current = Dict.get p.order_id s.snapshots in
        record_position Coordinate p s ≡ (
          if belongs_elsewhere Coordinate p (Dict.get p.client_event_id s.event_orders)
          then (err (value_error "client_event_id belongs to another order"), s)
          else record_after Coordinate p current s)
  unfolding record_position
  record_lem p s = ground arith

  record_after-IsLogged :
      (p : Position Coordinate) (s : Snapshots Coordinate)
      (current : Option (TrackingSnapshot Coordinate))
      → Dict.get p.order_id s.snapshots ≡ current
      → IsLogged s
      → IsLogged (record_after Coordinate p current s).1
  record_after-IsLogged p s none found h = stored-IsLogged p s none found h
  record_after-IsLogged p s (some current) found h =
      elim (Bool-cases (current.client_event_id == p.client_event_id)) [
        | inl same ↦ rw same h
        | inr new ↦ rw new (stored-IsLogged p s (some current) found h)
      ]

  record-IsLogged :
      (p : Position Coordinate) (s : Snapshots Coordinate)
      → IsLogged s
      → IsLogged (record_position Coordinate p s).1
  record-IsLogged p s h =
      rw (record_lem p s)
        (elim (Bool-cases
          (belongs_elsewhere Coordinate p (Dict.get p.client_event_id s.event_orders))) [
            | inl foreign ↦ rw foreign h
            | inr own ↦ rw own (record_after-IsLogged p s (Dict.get p.order_id s.snapshots) refl h)
          ])

  abbrev pub recorded : List (Position Coordinate) → Snapshots Coordinate → Snapshots Coordinate
  recorded [] s = s
  recorded (p ∷ ps) s = recorded ps (record_position Coordinate p s).1

  recorded-IsLogged :
      (ps : List (Position Coordinate)) (s : Snapshots Coordinate)
      → IsLogged s
      → IsLogged (recorded ps s)
  recorded-IsLogged [] s h = h
  recorded-IsLogged (p ∷ ps) s h =
      recorded-IsLogged ps (record_position Coordinate p s).1 (record-IsLogged p s h)

  -- From an empty repository, after any positions, refused and repeated ones among them, the messages
  -- about an order are numbered from 1 without a gap and in order, and the next position of the order
  -- gets the number after them.
  pub sequences_have_no_gaps :
      (ps : List (Position Coordinate)) (o : ℕ)
      → let s = recorded ps (no_snapshots Coordinate) in
        IsNumbered o 0 s.outbox
        × (next_sequence Coordinate (Dict.get o s.snapshots) ≡ sent o s.outbox + 1)
  sequences_have_no_gaps ps o =
      let h = recorded-IsLogged ps (no_snapshots Coordinate) (record {
        numbered = λ o. tt;
        counted = λ o. ground (arith, get-nothing {V = TrackingSnapshot Coordinate} o);
      }) in
      (h.numbered o, h.counted o)
