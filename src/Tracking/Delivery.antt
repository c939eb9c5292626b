-- ===== src/Tracking/Delivery.antt =====
-- What a slow subscriber still receives: the queues drop their oldest updates, and the stream skips
-- what is not newer than it has sent.
use innoprog_fastapi_deliver.Prelude.{
  ℕ, ◌≤◌, ◌<◌, suc, ◌≡◌, refl, subst, true, false, some, arith, if◌then◌else◌, leb, max, List, [],
  ◌∷◌, ◌++◌, length, number_eq, ◌==◌, length-append, inl, inr, Option-cases, Bool-cases,
  append_assoc, append_nil,
}
use innoprog_fastapi_deliver.Dict
use innoprog_fastapi_deliver.Dict.{Dict, get-put, get-nothing, get-put_self}
use innoprog_fastapi_deliver.Tracking.{
  TrackingEvent, Hub, publish, deliver, offer, is_full, above, order_event_stream, queues_of,
  subscribe,
}

module _ (Coordinate : Type 0) where
  -- the last events, at most `size` of them
  abbrev pub latest : ℕ → List (TrackingEvent Coordinate) → List (TrackingEvent Coordinate)
  latest size [] = []
  latest size (e ∷ es) =
      let rest = latest size es in if leb (suc (length es)) size then e ∷ es else rest

  latest_all :
      (size : ℕ) (es : List (TrackingEvent Coordinate)) → length es ≤ size → latest size es ≡ es
  latest_all size [] room = refl
  latest_all size (e ∷ es) room = ground arith

  offer-latest :
      (size : ℕ) (e : TrackingEvent Coordinate) (es : List (TrackingEvent Coordinate))
      → 0 < size
      → offer Coordinate size e (latest size es) ≡ latest size (es ++ e ∷ [])
  unfolding offer is_full
  offer-latest size e [] positive = ground arith
  offer-latest size e (x ∷ es) positive = ground (
    arith,
    offer-latest size e es positive,
    length-append es (e ∷ []),
    latest_all size (es ++ e ∷ []),
  )

  get-deliver :
      (size : ℕ) (e : TrackingEvent Coordinate) (k : ℕ)
      (qs : Dict ℕ (List (TrackingEvent Coordinate))) (q : List (TrackingEvent Coordinate))
      → Dict.get k qs ≡ some q
      → Dict.get k (deliver Coordinate size e qs).1 ≡ some (offer Coordinate size e q)
  unfolding deliver Dict.get
  get-deliver size e k [] q found = absurd (ground (arith, found))
  get-deliver size e k ((j, p) ∷ qs) q found = ground (arith, get-deliver size e k qs q)

  -- `q` waits in the queue `k` of the order
  abbrev pub Waits : Hub Coordinate → ℕ → ℕ → List (TrackingEvent Coordinate) → Type 0
  Waits h o k q = Dict.get k (queues_of Coordinate h o) ≡ some q

  abbrev pub publish_all : List (TrackingEvent Coordinate) → Hub Coordinate → Hub Coordinate
  publish_all [] h = h
  publish_all (e ∷ es) h = publish_all es (publish Coordinate e h)

  abbrev pub about : ℕ → List (TrackingEvent Coordinate) → List (TrackingEvent Coordinate)
  about o [] = []
  about o (e ∷ es) = let rest = about o es in if e.order_id == o then e ∷ rest else rest

  queue_size-publish :
      (e : TrackingEvent Coordinate) (h : Hub Coordinate)
      → (publish Coordinate e h).queue_size ≡ h.queue_size
  unfolding publish
  queue_size-publish e h = ground arith

  publish-Waits :
      (e : TrackingEvent Coordinate) (h : Hub Coordinate) (o k : ℕ)
      (q : List (TrackingEvent Coordinate))
      → Waits h o k q
      → Waits
          (publish Coordinate e h)
          o
          k
          (if e.order_id == o then offer Coordinate h.queue_size e q else q)
  unfolding publish
  publish-Waits e h o k q waits = elim (Option-cases (Dict.get e.order_id h.subscribers)) [
    | inl nobody ↦ ground (
      arith,
      nobody,
      get-nothing {V = List (TrackingEvent Coordinate)} k,
      number_eq.same_iff e.order_id o,
      waits,
    )
    | inr (qs, found) ↦ ground (
      arith,
      found,
      waits,
      number_eq.same_iff e.order_id o,
      get-put e.order_id o (deliver Coordinate h.queue_size e qs).1 h.subscribers,
      get-deliver h.queue_size e k qs q,
    )
  ]

  publish_all-Waits :
      (size o k : ℕ) (es past : List (TrackingEvent Coordinate)) (h : Hub Coordinate)
      → 0 < size
      → h.queue_size ≡ size
      → Waits h o k (latest size past)
      → Waits (publish_all es h) o k (latest size (past ++ about o es))
  publish_all-Waits size o k [] past h positive sized waits = rw (append_nil past) waits
  publish_all-Waits size o k (e ∷ es) past h positive sized waits =
      elim (Bool-cases (e.order_id == o)) [
        | inl same ↦
            subst (λ q. Waits (publish_all es (publish Coordinate e h)) o k (latest size q))
              (ground (arith, same, append_assoc past (e ∷ []) (about o es)))
              (publish_all-Waits size o k es (past ++ e ∷ []) (publish Coordinate e h) positive
                (rw (queue_size-publish e h) sized)
                (ground (
                  arith,
                  same,
                  sized,
                  publish-Waits e h o k (latest size past) waits,
                  offer-latest size e past positive,
                )))
        | inr different ↦
            subst (λ q. Waits (publish_all es (publish Coordinate e h)) o k (latest size q))
              (ground (arith, different))
              (publish_all-Waits size o k es past (publish Coordinate e h) positive
                (rw (queue_size-publish e h) sized)
                (ground (arith, different, publish-Waits e h o k (latest size past) waits)))
      ]

  -- A subscriber of an order, with a bounded queue, that takes nothing while events are published,
  -- finds in its queue the last events of its order, as many as the queue holds, in their order.
  pub slow_consumer_keeps_latest :
      (o k : ℕ) (es : List (TrackingEvent Coordinate)) (h : Hub Coordinate)
      → 0 < h.queue_size
      → Waits (publish_all es (subscribe Coordinate k o h)) o k (latest h.queue_size (about o es))
  unfolding subscribe
  slow_consumer_keeps_latest o k es h positive =
      publish_all-Waits h.queue_size o k es [] (subscribe Coordinate k o h) positive refl (
        ground (
          arith,
          get-put o o (Dict.put k [] (queues_of Coordinate h o)) h.subscribers,
          get-put_self k [] (queues_of Coordinate h o),
        ))

  -- strictly increasing from a bound
  abbrev pub Increasing : ℕ → List (TrackingEvent Coordinate) → Type 0
  Increasing n [] = Unit
  Increasing n (e ∷ es) = (n < e.sequence) × Increasing e.sequence es

  above-Increasing :
      (floor : ℕ) (es : List (TrackingEvent Coordinate))
      → Increasing floor (above Coordinate floor es)
  unfolding above
  above-Increasing floor [] = tt
  above-Increasing floor (e ∷ es) =
      ground (arith, above-Increasing floor es, above-Increasing e.sequence es)

  -- the greatest sequence of a bound and some events
  abbrev pub newest : ℕ → List (TrackingEvent Coordinate) → ℕ
  newest n [] = n
  newest n (e ∷ es) = if leb e.sequence n then newest n es else newest e.sequence es

  abbrev pub last_sent : ℕ → List (TrackingEvent Coordinate) → ℕ
  last_sent n [] = n
  last_sent n (e ∷ es) = last_sent e.sequence es

  above_ends_newest :
      (floor : ℕ) (es : List (TrackingEvent Coordinate))
      → last_sent floor (above Coordinate floor es) ≡ newest floor es
  unfolding above
  above_ends_newest floor [] = refl
  above_ends_newest floor (e ∷ es) =
      ground (arith, above_ends_newest floor es, above_ends_newest e.sequence es)

  -- A stream sends the snapshot first; then, while it follows, only updates with greater sequences than
  -- the snapshot, than the client's last one and than all it has sent, so that the last one sent is the
  -- newest of those. A stream that does not follow sends the snapshot only.
  pub stream_advances :
      (snapshot : TrackingEvent Coordinate) (last_sequence : ℕ)
      (updates : List (TrackingEvent Coordinate))
      → (order_event_stream Coordinate snapshot last_sequence false updates ≡ snapshot ∷ [])
        × ((rest : List (TrackingEvent Coordinate)) × (order_event_stream Coordinate snapshot
                last_sequence true updates
              ≡ snapshot ∷ rest)
            × Increasing (max last_sequence snapshot.sequence) rest
            × (last_sent (max last_sequence snapshot.sequence) rest
                ≡ newest (max last_sequence snapshot.sequence) updates))
  unfolding order_event_stream
  stream_advances snapshot last_sequence updates =
      let floor = max last_sequence snapshot.sequence in
      (
        refl,
        (
          above Coordinate floor updates,
          refl,
          above-Increasing floor updates,
          above_ends_newest floor updates,
        ),
      )
