-- ===== src/Service/Race.antt =====
-- Two clients that write one order with the version they have read: optimistic concurrency of
-- `OrderService.update` and `OrderService.transition`.
use innoprog_fastapi_deliver.Prelude.{
  ℕ, ◌+◌, String, ◌≡◌, ◌≢◌, some, arith, ok, err, inl, inr, number_eq, Option-cases,
}
use innoprog_fastapi_deliver.Runtime.{Runtime}
use innoprog_fastapi_deliver.Dict
use innoprog_fastapi_deliver.Dict.{get-put, get-put_self}
use innoprog_fastapi_deliver.Status.{OrderStatus}
use innoprog_fastapi_deliver.Errors.{Error, concurrent_update}
use innoprog_fastapi_deliver.Domain.{DeliveryOrder}
use innoprog_fastapi_deliver.Domain.Details.{update_details-IsEdit}
use innoprog_fastapi_deliver.Commands.{UpdateOrderCommand, TransitionOrderCommand, changes}
use innoprog_fastapi_deliver.Repository.{Memory, memory_repository}
use innoprog_fastapi_deliver.Repository.Invariant.{IsConsistent}
use innoprog_fastapi_deliver.Service
use innoprog_fastapi_deliver.Service.{Fresh}
use innoprog_fastapi_deliver.Service.Creation.{Answer}
use innoprog_fastapi_deliver.Service.Optimistic.{transition_lem, update_lem}
use innoprog_fastapi_deliver.Service.Calls.{
  update, transition, after, after-IsConsistent, Later, Later-IsConsistent, missing_transition,
  missing_update,
}
use innoprog_fastapi_deliver.Service.Onward.{Advances-at}
use innoprog_fastapi_deliver.Service.Advancing.{Later-Advances}

-- What a client writes, its expected version left out.
pub data Write : Type 0 where
  edit : UpdateOrderCommand → Write
  move : Fresh → OrderStatus → ℕ → String → String → Write

abbrev command : OrderStatus → ℕ → ℕ → String → String → TransitionOrderCommand
command target v actor_id actor_role correlation_id = record {
  target = target;
  expected_version = v;
  actor_id = actor_id;
  actor_role = actor_role;
  correlation_id = correlation_id;
}

unfoldable pub write : Runtime → ℕ → Write → ℕ → Memory → Answer
write py i (edit c) v s = Service.update py (memory_repository py) i c v s
write py i (move fresh target actor_id actor_role correlation_id) v s =
    Service.transition py (memory_repository py) fresh i
      (command target v actor_id actor_role correlation_id) s

module _ (py : Runtime) (i : ℕ) (s : Memory) (h : IsConsistent py s) where
  -- A write with another version than the stored one.
  stale :
      (w : Write) (v : ℕ) (current : DeliveryOrder)
      → Dict.get i s.orders ≡ some current
      → current.version ≢ v
      → write py i w v s ≡ (err concurrent_update, s)
  unfolding write
  stale (edit c) v current found other =
      ground (arith, update_lem py i c v s current found (h.keyed i current found))
  stale (move fresh target a r l) v current found other = ground (
    arith,
    transition_lem py fresh i (command target v a r l) s current found (h.keyed i current found),
  )

  -- A write that raises.
  raised : (w : Write) (v : ℕ) {e : Error} → (write py i w v s).0 ≡ err e → (write py i w v s).1 ≡ s
  unfolding write
  raised (edit c) v refused = elim (Option-cases (Dict.get i s.orders)) [
    | inl none_there ↦ rw (missing_update py i c v s none_there)
    | inr (current, found) ↦
        ground (arith, update_lem py i c v s current found (h.keyed i current found))
  ]
  raised (move fresh target a r l) v refused = elim (Option-cases (Dict.get i s.orders)) [
    | inl none_there ↦ rw (missing_transition py fresh i (command target v a r l) s none_there)
    | inr (current, found) ↦ ground (
      arith,
      transition_lem py fresh i (command target v a r l) s current found (h.keyed i current found),
    )
  ]

  -- A write that is accepted.
  accepted :
      (w : Write) (v : ℕ) (o : DeliveryOrder)
      → (write py i w v s).0 ≡ ok o
      → (Dict.get i (write py i w v s).1.orders ≡ some o) × (o.version ≡ v + 1)
  unfolding write
  accepted (edit c) v o done = elim (Option-cases (Dict.get i s.orders)) [
    | inl none_there ↦ ground (arith, missing_update py i c v s none_there)
    | inr (current, found) ↦ ground (
      arith,
      update_lem py i c v s current found (h.keyed i current found),
      update_details-IsEdit py current (changes c) {o' = o},
      h.keyed i current found,
      get-put_self i o s.orders,
    )
  ]
  accepted (move fresh target a r l) v o done = elim (Option-cases (Dict.get i s.orders)) [
    | inl none_there ↦
        ground (arith, missing_transition py fresh i (command target v a r l) s none_there)
    | inr (current, found) ↦ ground (
      arith,
      transition_lem py fresh i (command target v a r l) s current found (h.keyed i current found),
      h.keyed i current found,
      get-put_self i o s.orders,
    )
  ]

write-IsConsistent :
    (py : Runtime) (i : ℕ) (s : Memory) (w : Write) (v : ℕ)
    → IsConsistent py s
    → IsConsistent py (write py i w v s).1
unfolding write after
write-IsConsistent py i s (edit c) v h = after-IsConsistent py (update i c v) s tt h
write-IsConsistent py i s (move fresh target a r l) v h =
    after-IsConsistent py (transition fresh i (command target v a r l)) s tt h

-- A write that raises leaves the repository as it was: no order, no history and no outbox message
-- of it is written.
pub refused_write_is_void :
    (py : Runtime) (i : ℕ) (s : Memory) (w : Write) (v : ℕ) (e : Error)
    → IsConsistent py s
    → (write py i w v s).0 ≡ err e
    → write py i w v s ≡ (err e, s)
refused_write_is_void py i s w v e h refused = ground (arith, raised py i s h w v refused)

-- When a write with version `v` is accepted, the order is stored with version `v + 1`, and after any
-- further calls of the use cases, every write of that order with version `v` is refused as a concurrent
-- update with nothing written: of the clients that have read one version, at most one writes.
pub no_lost_update :
    (py : Runtime) (i : ℕ) (s : Memory) (w : Write) (v : ℕ) (o : DeliveryOrder)
    → IsConsistent py s
    → (write py i w v s).0 ≡ ok o
    → let s' = (write py i w v s).1 in
      (Dict.get i s'.orders ≡ some o)
      × (o.version ≡ v + 1)
      × ((t : Memory) (w' : Write) → Later py s' t → write py i w' v t ≡ (err concurrent_update, t))
no_lost_update py i s w v o h done =
    let (found, version) = accepted py i s h w v o done in
    let consistent = write-IsConsistent py i s w v h in
    (
      found,
      version,
      λ t w' later.
          let (current, there, onward) = Advances-at i o (Later-Advances consistent later) found in
          stale py i t (Later-IsConsistent consistent later) w' v current there
            (omega (arith, version, onward.grows)),
    )
